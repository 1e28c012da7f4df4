-- ===== src/ToolRuntime/Moves.antt =====
-- What a transition of an attempt in the store does, and that a settled call does not run.
use mathlib.Core.Path.{subst}
use codepilot_stable.Base.{
  String, none, some, List, [], ◌∷◌, ◌≡◌, ◌≢◌, refl, sym, ap, ◌∙◌, ok, on_ok, Result, Holds, front,
  behind, dict_set, str_eq, Bool-cases, Option-cases, inl, inr, ◌⊎◌,
}
use codepilot_stable.Tools.{ToolResult}
use codepilot_stable.Security.Types.{ApprovalGrant}
use codepilot_stable.Attempts.Types.{
  ToolAttemptState, ToolAttemptRecord, ToolStateStore, Change, set_result, set_cleanup_errors,
}
use codepilot_stable.Attempts.Transitions.{transition, apply_changes, may_become}
use codepilot_stable.Attempts.Transitions.Bounds.{transition-ok}
use codepilot_stable.Attempts.Store.{get, put, create}
use codepilot_stable.Attempts.Store.Reads.{get-put_same, create-ok, compare_and_set-ok}
use codepilot_stable.Attempts.Store.Keyed.{Links, compare_and_set-Links}
use codepilot_stable.ToolRuntime.Types.{Prepared, ready, move, settle, settle_made, answer_with}

-- A transition that returns: the record that was there, the record that is there now.
unfoldable pub Moved :
    String → ToolAttemptState → List Change → ToolStateStore → ToolStateStore → Type 0
Moved id state changes store after =
    (r q : ToolAttemptRecord) × (get id store ≡ some r)
    × (transition r state changes ≡ ok q)
    × (q.state ≡ state)
    × (after ≡ put id q store)
    × (get id after ≡ some q)
    × Links id store after

pub move-Moved :
    (id : String) (state : ToolAttemptState) (changes : List Change) (store after : ToolStateStore)
    → move id state changes store ≡ ok after
    → Moved id state changes store after
unfolding move Moved
move-Moved id state changes store after h = elim (Option-cases (get id store)) [
  | inl missing ↦ let h' = rw (missing, move) at h in absurd (cc)
  | inr (r, found) ↦
      let h' = rw (found, move) at h in
      on_ok (transition r state changes) _ h' (λ q moved h''.
        let put_it = compare_and_set-ok id r.state q store after h'' in
        let stored = ap (get id) put_it.4 ∙ get-put_same id q store in
        (
          r,
          q,
          found,
          moved,
          (transition-ok r q state changes moved).1,
          put_it.4,
          stored,
          compare_and_set-Links id r.state q store after h'',
        ))
]

settle-ready :
    {Input : Type 0} (id : String) (state : ToolAttemptState) (result : ToolResult)
    (store after : ToolStateStore) (call : Prepared Input)
    → settle id state result store ≢ ok (after, ready call)
unfolding settle
settle-ready id state result store after call h =
    on_ok (move id state (set_result result ∷ set_cleanup_errors [] ∷ []) store) _ h
      (λ t moved h'. cc)

pub settle_made-ready :
    {Input : Type 0} (id : String) (state : ToolAttemptState) (made : Result ToolResult)
    (store after : ToolStateStore) (call : Prepared Input)
    → settle_made id state made store ≢ ok (after, ready call)
unfolding settle_made
settle_made-ready id state made store after call h =
    on_ok made _ h (λ result e h'. settle-ready id state result store after call h')

pub answer_with-ready :
    {Input : Type 0} (store : ToolStateStore) (made : Result ToolResult) (after : ToolStateStore)
    (call : Prepared Input)
    → answer_with store made ≢ ok (after, ready call)
answer_with-ready store made after call h = on_ok made _ h (λ result e h'. cc)

Holds-cases : {A : Type 0} {x y : A} {ys : List A} → Holds x (y ∷ ys) → (x ≡ y) ⊎ Holds x ys
Holds-cases front = inl refl
Holds-cases (behind holds) = inr holds

Holds-dict_set :
    {V : Type 0} (key : String) (value : V) (entries : List (String × V)) (entry : String × V)
    → Holds entry (dict_set key value entries)
    → (entry.1 ≡ value) ⊎ Holds entry entries
unfolding dict_set
Holds-dict_set key value [] entry holds = elim (Holds-cases holds) [
  | inl same ↦ inl (ap (λ (e : String × _). e.1) same)
  | inr rest ↦ inr rest
]
Holds-dict_set key value ((k, v) ∷ entries) entry holds = elim (Bool-cases (str_eq k key)) [
  | inl same ↦
      let holds' = rw (same, dict_set) at holds in
      elim (Holds-cases holds') [
        | inl is_first ↦ inl (ap (λ (e : String × _). e.1) is_first)
        | inr rest ↦ inr (behind rest)
      ]
  | inr other ↦
      let holds' = rw (other, dict_set) at holds in
      elim (Holds-cases holds') [
        | inl is_first ↦ inr (subst (λ x. Holds x ((k, v) ∷ entries)) (sym is_first) front)
        | inr rest ↦ elim (Holds-dict_set key value entries entry rest) [
          | inl written ↦ inl written
          | inr there ↦ inr (behind there)
        ]
      ]
]

-- An attempt that has no grant, in a store whose other grants are those of an earlier store.
unfoldable pub IsUngranted : String → ToolStateStore → ToolStateStore → Type 0
IsUngranted id earlier store =
    ((r : ToolAttemptRecord) × (get id store ≡ some r) × (r.grant ≡ none))
    × ((entry : String × ToolAttemptRecord) (grant : ApprovalGrant)
        → Holds entry store.attempts
        → entry.1.grant ≡ some grant
        → Holds entry earlier.attempts)

put-IsUngranted :
    (id : String) (q : ToolAttemptRecord) (earlier store : ToolStateStore)
    → q.grant ≡ none
    → ((entry : String × ToolAttemptRecord) (grant : ApprovalGrant)
        → Holds entry store.attempts
        → entry.1.grant ≡ some grant
        → Holds entry earlier.attempts)
    → IsUngranted id earlier (put id q store)
unfolding IsUngranted put
put-IsUngranted id q earlier store no_grant old = (
  (q, get-put_same id q store, no_grant),
  λ entry grant holds has. elim (Holds-dict_set id q store.attempts entry holds) [
    | inl own ↦
        let same = ap (λ (x : ToolAttemptRecord). x.grant) own in
        let clash : some grant ≡ none = sym has ∙ same ∙ no_grant in absurd (cc)
    | inr there ↦ old entry grant there has
  ],
)

pub create-IsUngranted :
    (r : ToolAttemptRecord) (store after : ToolStateStore)
    → r.grant ≡ none
    → create r store ≡ ok after
    → IsUngranted r.attempt_id store after
create-IsUngranted r store after no_grant h =
    let created = create-ok r store after h in
    subst (IsUngranted r.attempt_id store) (sym created.1)
      (put-IsUngranted r.attempt_id r store store no_grant (λ entry grant holds has. holds))

plain_transition-grant :
    (r q : ToolAttemptRecord) (state : ToolAttemptState)
    → transition r state [] ≡ ok q
    → q.grant ≡ r.grant
unfolding transition apply_changes
plain_transition-grant r q state h = elim (Bool-cases (may_become r.state state)) [
  | inl may ↦
      let h' : ok (record r { state = state }) ≡ ok q = rw (may, transition) at h in
      let e : record r { state = state } ≡ q = cc in sym (ap (λ (x : ToolAttemptRecord). x.grant) e)
  | inr may_not ↦ let h' = rw (may_not, transition) at h in absurd (cc)
]

pub move-IsUngranted :
    (id : String) (state : ToolAttemptState) (earlier store after : ToolStateStore)
    → IsUngranted id earlier store
    → move id state [] store ≡ ok after
    → IsUngranted id earlier after
unfolding IsUngranted Moved
move-IsUngranted id state earlier store after ungranted h =
    let moved = move-Moved id state [] store after h in
    let same : some moved.0 ≡ some ungranted.0.0 = sym moved.2 ∙ ungranted.0.1 in
    let equal : moved.0 ≡ ungranted.0.0 = cc in
    let no_grant =
      plain_transition-grant moved.0 moved.1 state moved.3
      ∙ ap (λ (x : ToolAttemptRecord). x.grant) equal
      ∙ ungranted.0.2 in
    subst (IsUngranted id earlier) (sym moved.5)
      (put-IsUngranted id moved.1 earlier store no_grant ungranted.1)
