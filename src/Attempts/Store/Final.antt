-- ===== src/Attempts/Store/Final.antt =====
-- What writers that race for an attempt cannot do: leave a final state, or take one state twice.
use codepilot_stable.Base.{
  String, true, false, some, List, ◌≡◌, ◌≢◌, Result, ok, ◌>>=◌, on_ok, str_eq, eq_iff, Bool-cases,
  inl, inr, arith, ◌∙◌, ap, sym,
}
use codepilot_stable.Attempts.Types.{ToolAttemptState, ToolAttemptRecord, ToolStateStore, Change}
use codepilot_stable.Attempts.Transitions.{same_state, transition, may_become}
use codepilot_stable.Attempts.Transitions.Bounds.{is_final, transition-ok, may_become-final}
use codepilot_stable.Attempts.Store.{get, put, create, compare_and_set}
use codepilot_stable.Attempts.Store.Reads.{
  get-put_other, get-put_same, create-ok, compare_and_set-ok,
}

-- What a caller writes: a new attempt, or the transition of a record that it read at some time.
pub data Write : Type 0 where
  creates : ToolAttemptRecord → Write
  moves : ToolAttemptRecord → ToolAttemptState → List Change → Write

unfoldable pub write : Write → ToolStateStore → Result ToolStateStore
write (creates r) store = create r store
write (moves r state changes) store = do
  q ← transition r state changes
  compare_and_set r.attempt_id r.state q store

same_state-≡ : (s t : ToolAttemptState) → same_state s t ≡ true → is_final s ≡ is_final t
same_state-≡ s t h = grind arith

-- Any writes, those that raise left out.
pub data Writes (first : ToolStateStore) : ToolStateStore → Type 0 where
  unwritten : Writes first first
  written :
      {store after : ToolStateStore} (w : Write)
      → Writes first store
      → write w store ≡ ok after
      → Writes first after

-- The put of another attempt, or one that the attempt's record rules out.
put_keeps :
    (id put_id : String) (q r : ToolAttemptRecord) (store after : ToolStateStore)
    → after ≡ put put_id q store
    → (put_id ≢ id)
    → get id store ≡ some r
    → get id after ≡ some r
put_keeps id put_id q r store after e differs found = elim (Bool-cases (str_eq put_id id)) [
  | inl equal ↦ absurd (differs ((eq_iff put_id id).0 equal))
  | inr other ↦ ap (get id) e ∙ get-put_other id put_id q store other ∙ found
]

write_keeps_final :
    (w : Write) (store after : ToolStateStore) (id : String) (r : ToolAttemptRecord)
    → write w store ≡ ok after
    → get id store ≡ some r
    → is_final r.state ≡ true
    → get id after ≡ some r
unfolding write
write_keeps_final (creates q) store after id r h found final =
    let created = create-ok q store after h in
    put_keeps id q.attempt_id q r store after created.1
      (λ same. let taken = ap (λ key. get key store) same in absurd (cc)) found
write_keeps_final (moves q state changes) store after id r h found final =
    on_ok (transition q state changes) _ h (λ p moved h'.
      let exchanged = compare_and_set-ok q.attempt_id q.state p store after h' in
      let may = transition-ok q p state changes moved in
      let left = may_become-final q.state state may.0 in
      let there = same_state-≡ exchanged.0.state q.state exchanged.2 in
      put_keeps id q.attempt_id p r store after exchanged.4
        (λ same.
          let current : some exchanged.0 ≡ some r =
            sym exchanged.1 ∙ ap (λ key. get key store) same ∙ found in
          let equal : exchanged.0 ≡ r = cc in
          let ended = ap (λ (x : ToolAttemptRecord). is_final x.state) equal in absurd (cc))
        found)

-- The record of an attempt that has ended stays as it is, whatever is created after and whatever
-- transitions are written of records that were read at any time.
pub Writes-final :
    {first last : ToolStateStore} (id : String) (r : ToolAttemptRecord)
    → Writes first last
    → get id first ≡ some r
    → is_final r.state ≡ true
    → get id last ≡ some r
Writes-final id r unwritten found final = found
Writes-final id r (written {store} {after} w ws h) found final =
    write_keeps_final w store after id r h (Writes-final id r ws found final) final

moved_away : (s t : ToolAttemptState) → may_become s t ≡ true → same_state t s ≡ false
unfolding may_become
moved_away s t h = ground arith

-- Of two writers that found an attempt in one state, the second is refused once the first wrote.
pub write_once :
    (r q : ToolAttemptRecord) (state other : ToolAttemptState) (changes others : List Change)
    (store after last : ToolStateStore)
    → write (moves r state changes) store ≡ ok after
    → q.attempt_id ≡ r.attempt_id
    → q.state ≡ r.state
    → write (moves q other others) after ≢ ok last
unfolding write
write_once r q state other changes others store after last h same_id same second =
    on_ok (transition r state changes) _ h (λ p moved h'.
      on_ok (transition q other others) _ second (λ u moved' second'.
        let first = compare_and_set-ok r.attempt_id r.state p store after h' in
        let next = compare_and_set-ok q.attempt_id q.state u after last second' in
        let may = transition-ok r p state changes moved in
        let away = moved_away r.state state may.0 in
        let stored : get r.attempt_id after ≡ some p =
          ap (get r.attempt_id) first.4 ∙ get-put_same r.attempt_id p store in
        let current : some next.0 ≡ some p =
          sym next.1 ∙ ap (λ key. get key after) same_id ∙ stored in
        let equal : next.0 ≡ p = cc in
        let states : next.0.state ≡ state = ap (λ (x : ToolAttemptRecord). x.state) equal ∙ may.1 in
        let clash : same_state state r.state ≡ true =
          sym (ap (λ s. same_state s r.state) states)
          ∙ sym (ap (same_state next.0.state) same)
          ∙ next.2 in
        absurd (cc)))
