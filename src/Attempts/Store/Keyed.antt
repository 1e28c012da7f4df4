-- ===== src/Attempts/Store/Keyed.antt =====
-- Every record stands under its own id, and its approval id keeps leading to it.
use codepilot_stable.Base.{
  String, some, ◌≡◌, refl, sym, ap, ◌∙◌, ok, on_ok, str_eq, eq_iff, Bool-cases, Option-cases, inl,
  inr, dict_get, dict_get-dict_set,
}
use codepilot_stable.Attempts.Types.{ToolAttemptState, ToolAttemptRecord, ToolStateStore}
use codepilot_stable.Attempts.Transitions.{transition}
use codepilot_stable.Attempts.Store.{get, put, index, compare_and_set, empty_store}
use codepilot_stable.Attempts.Store.Reads.{
  get-put_other, get-put_same, create-ok, compare_and_set-ok,
}
use codepilot_stable.Attempts.Store.Final.{creates, moves, write, Writes, unwritten, written}
use mathlib.Core.Path.{subst}

unfoldable pub IsKeyed : ToolStateStore → Type 0
IsKeyed store = (id : String) (r : ToolAttemptRecord) → get id store ≡ some r → r.attempt_id ≡ id

put-IsKeyed :
    (id : String) (q : ToolAttemptRecord) (store : ToolStateStore)
    → q.attempt_id ≡ id
    → IsKeyed store
    → IsKeyed (put id q store)
unfolding IsKeyed
put-IsKeyed id q store own keyed key r found = elim (Bool-cases (str_eq id key)) [
  | inl same ↦
      let e : id ≡ key = (eq_iff id key).0 same in
      let there : some q ≡ some r =
        sym (get-put_same id q store) ∙ ap (λ k. get k (put id q store)) e ∙ found in
      let equal : q ≡ r = cc in ap (λ (x : ToolAttemptRecord). x.attempt_id) (sym equal) ∙ own ∙ e
  | inr other ↦ keyed key r (sym (get-put_other key id q store other) ∙ found)
]

-- Any store that the writes lead to has each record under its id.
pub Writes-IsKeyed : {store : ToolStateStore} → Writes empty_store store → IsKeyed store
unfolding write IsKeyed get dict_get
Writes-IsKeyed unwritten = λ id r found. absurd (cc)
Writes-IsKeyed (written {store} {after} (creates r) ws h) =
    let created = create-ok r store after h in
    subst IsKeyed (sym created.1) (put-IsKeyed r.attempt_id r store refl (Writes-IsKeyed ws))
Writes-IsKeyed (written {store} {after} (moves r state changes) ws h) =
    on_ok (transition r state changes) _ h (λ q moved h'.
      let put_it = compare_and_set-ok r.attempt_id r.state q store after h' in
      subst IsKeyed (sym put_it.4) (put-IsKeyed r.attempt_id q store put_it.3 (Writes-IsKeyed ws)))

-- What leads to an attempt by an approval id still leads to it.
unfoldable pub Links : String → ToolStateStore → ToolStateStore → Type 0
Links id store after =
    (approval_id : String)
    → dict_get approval_id store.approval_index ≡ some id
    → dict_get approval_id after.approval_index ≡ some id

put-Links :
    (id : String) (q : ToolAttemptRecord) (store : ToolStateStore)
    → q.attempt_id ≡ id
    → Links id store (put id q store)
unfolding Links put index
put-Links id q store own key h = elim (Option-cases q.challenge) [
  | inl missing ↦ rw missing h
  | inr (challenge, has) ↦
      let reads = dict_get-dict_set key challenge.approval_id q.attempt_id store.approval_index in
      rw has (elim (Bool-cases (str_eq challenge.approval_id key)) [
        | inl same ↦ reads ∙ rw same (ap some own)
        | inr other ↦ reads ∙ rw other h
      ])
]

pub compare_and_set-Links :
    (id : String) (expected : ToolAttemptState) (q : ToolAttemptRecord)
    (store after : ToolStateStore)
    → compare_and_set id expected q store ≡ ok after
    → Links id store after
compare_and_set-Links id expected q store after h =
    let put_it = compare_and_set-ok id expected q store after h in
    subst (Links id store) (sym put_it.4) (put-Links id q store put_it.3)
