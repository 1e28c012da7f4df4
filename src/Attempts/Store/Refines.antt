-- ===== src/Attempts/Store/Refines.antt =====
-- The store against an abstract store of three mappings, over any calls that write.
use mathlib.Core.Path.{subst}
use codepilot_stable.Base.{
  String, Option, none, some, List, [], ◌∷◌, ◌≡◌, refl, Result, err, ok, dict_get, str_eq,
  if◌then◌else◌, Bool-cases, Error, value_error, Option-cases, inl, inr, tool_state_conflict, ◌∙◌,
  ap,
}
use codepilot_stable.Attempts.Types.{ToolAttemptState, ToolAttemptRecord, ToolStateStore}
use codepilot_stable.Attempts.Transitions.{same_state}
use codepilot_stable.Attempts.Store.{
  get, create, compare_and_set, find_by_approval_id, find_by_interaction_id,
}
use codepilot_stable.Attempts.Store.View.{View, reading, view, write, view-put}

-- A call that writes.
pub data Call : Type 0 where
  creates : ToolAttemptRecord → Call
  exchanges : String → ToolAttemptState → ToolAttemptRecord → Call

pub store_call : Call → ToolStateStore → Result ToolStateStore
store_call (creates r) store = create r store
store_call (exchanges id expected r) store = compare_and_set id expected r store

-- What the protocol promises: a free id for a creation, and for an exchange a record that is there,
-- in the state that is expected, whose id the new record has.
pub view_call : Call → View → Result View
view_call (creates r) v = elim (v.attempt r.attempt_id) [
  | none ↦ ok (write r.attempt_id r v)
  | some old ↦ err tool_state_conflict
]
view_call (exchanges id expected r) v = elim (v.attempt id) [
  | none ↦ err tool_state_conflict
  | some current ↦
      if same_state current.state expected
      then if str_eq r.attempt_id id then ok (write id r v) else err value_error
      else err tool_state_conflict
]

module _ {ℓ} {S : Type ℓ} where
  -- A call that raises leaves all as it was.
  pub after : S → Result S → S
  after s (err error) = s
  after s (ok t) = t

  pub failure : Result S → Option Error
  failure (err error) = some error
  failure (ok t) = none

  -- the state after some calls, and the error of each
  pub perform : (Call → S → Result S) → List Call → S → S × List (Option Error)
  perform call [] s = (s, [])
  perform call (c ∷ cs) s =
      let rest = perform call cs (after s (call c s)) in (rest.0, failure (call c s) ∷ rest.1)

seen : Result ToolStateStore → Result View
seen (err error) = err error
seen (ok store) = ok (view store)

call_refines :
    (c : Call) (store : ToolStateStore) → seen (store_call c store) ≡ view_call c (view store)
unfolding store_call view_call seen create compare_and_set get view reading
call_refines (creates r) store =
    let written = view-put r.attempt_id r store in
    elim (Option-cases (dict_get r.attempt_id store.attempts)) [
      | inl free ↦
          rw (free, seen, store_call, create, get, view_call, view, reading) (ap ok written)
      | inr (old, taken) ↦ rw (taken, seen, store_call, create, get, view_call, view, reading) refl
    ]
call_refines (exchanges id expected r) store =
    let written = view-put id r store in
    elim (Option-cases (dict_get id store.attempts)) [
      | inl missing ↦
          rw (missing, seen, store_call, compare_and_set, get, view_call, view, reading) refl
      | inr (current, found) ↦ elim (Bool-cases (same_state current.state expected)) [
        | inr other ↦
            rw (found, other, seen, store_call, compare_and_set, get, view_call, view, reading) refl
        | inl same ↦ elim (Bool-cases (str_eq r.attempt_id id)) [
          | inr differs ↦
              rw
                (
                  found, same, differs, seen, store_call, compare_and_set, get, view_call, view,
                  reading,
                )
                refl
          | inl equal ↦
              rw
                (
                  found, same, equal, seen, store_call, compare_and_set, get, view_call, view,
                  reading,
                )
                (ap ok written)
        ]
      ]
    ]

after-seen :
    (store : ToolStateStore) (outcome : Result ToolStateStore)
    → (view (after store outcome) ≡ after (view store) (seen outcome))
      × (failure outcome ≡ failure (seen outcome))
unfolding after failure seen
after-seen store (err error) = (refl, refl)
after-seen store (ok t) = (refl, refl)

-- Of any calls, the store ends as the mappings do, and the same calls raise the same errors.
perform_refines :
    (calls : List Call) (store : ToolStateStore)
    → (view (perform store_call calls store).0 ≡ (perform view_call calls (view store)).0)
      × ((perform store_call calls store).1 ≡ (perform view_call calls (view store)).1)
unfolding perform
perform_refines [] store = (refl, refl)
perform_refines (c ∷ cs) store =
    let outcome = call_refines c store in
    let ends = after-seen store (store_call c store) in
    let rest = perform_refines cs (after store (store_call c store)) in
    let here : view (after store (store_call c store))
        ≡ after (view store) (view_call c (view store)) =
      ends.0 ∙ ap (after (view store)) outcome in
    (rest.0 ∙ ap (λ v. (perform view_call cs v).0) here, cc)

-- The record that an id for the user's answer leads to, over the mapping of such ids.
pub linked : (String → Option String) → View → String → Option ToolAttemptRecord
linked links v key = elim (links key) [ none ↦ none | some id ↦ v.attempt id ]

view_reads :
    (store : ToolStateStore) (v : View) (id approval_id interaction_id : String)
    → view store ≡ v
    → (get id store ≡ v.attempt id)
      × (find_by_approval_id approval_id store ≡ linked v.approval v approval_id)
      × (find_by_interaction_id interaction_id store ≡ linked v.interaction v interaction_id)
unfolding get find_by_approval_id find_by_interaction_id view linked reading
view_reads store v id approval_id interaction_id e =
    subst
      (λ w.
        (get id store ≡ w.attempt id)
        × (find_by_approval_id approval_id store ≡ linked w.approval w approval_id)
        × (find_by_interaction_id interaction_id store ≡ linked w.interaction w interaction_id))
      e (refl, refl, refl)

-- After any creations and exchanges, whatever of them was refused, the store has raised the errors
-- that an abstract store of three mappings raises, and answers every look-up of an attempt, by its
-- id, by an approval id or by an interaction id, as that does. There a creation needs a free id,
-- and an exchange a record that is there, in the state that is expected, and a new record of the
-- same id.
pub store_refines :
    (calls : List Call) (store : ToolStateStore) (id approval_id interaction_id : String)
    → ((perform store_call calls store).1 ≡ (perform view_call calls (view store)).1)
      × (get id (perform store_call calls store).0
          ≡ (perform view_call calls (view store)).0.attempt id)
      × (find_by_approval_id approval_id (perform store_call calls store).0
          ≡ linked
              (perform view_call calls (view store)).0.approval
              (perform view_call calls (view store)).0
              approval_id)
      × (find_by_interaction_id interaction_id (perform store_call calls store).0
          ≡ linked
              (perform view_call calls (view store)).0.interaction
              (perform view_call calls (view store)).0
              interaction_id)
store_refines calls store id approval_id interaction_id =
    let ends = perform_refines calls store in
    let reads = view_reads _ _ id approval_id interaction_id ends.0 in
    (ends.1, reads.0, reads.1, reads.2)
