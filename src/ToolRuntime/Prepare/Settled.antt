-- ===== src/ToolRuntime/Prepare/Settled.antt =====
-- That the transitions which the preparation of a call makes return, and what settles an attempt.
use codepilot_stable.Base.{
  String, true, false, some, List, [], ◌∷◌, ◌≡◌, refl, ap, ◌∙◌, Result, err, ok, Option-cases,
  Bool-cases, inl, inr, eq_iff, arith, ◌⊎◌, Error, dict_get, str_eq,
}
use codepilot_stable.Literals.{ToolStatus, ToolErrorKind}
use codepilot_stable.Tools.{ToolResult, require_text}
use codepilot_stable.Security.Types.{ToolExecutionRequest}
use codepilot_stable.Attempts.Types.{
  ToolAttemptState, ToolAttemptRecord, ToolStateStore, Change, set_result, set_cleanup_errors,
}
use codepilot_stable.Attempts.Transitions.{may_become, transition, apply_changes, same_state}
use codepilot_stable.Attempts.Transitions.Bounds.{apply_changes-keeps}
use codepilot_stable.Attempts.Store.{create, get, put, compare_and_set}
use codepilot_stable.Attempts.Store.Reads.{get-put_same, create-ok}
use codepilot_stable.ToolRuntime.Types.{
  ToolRegistration, MaterializedTool, finished, move, settle, settle_made, failure,
}
use codepilot_stable.ToolRuntime.Results.{
  IsText, IsChecked, IsShowable, not_found-IsShowable, stale-IsShowable, failure_returns,
}
use codepilot_stable.ToolRuntime.Registry.{not_found, stale, found, materialize}
use codepilot_stable.ToolRuntime.Prepare.{new_attempt}

-- An attempt of the store that is in a state, under its id.
unfoldable pub IsAt : String → ToolAttemptState → ToolStateStore → Type 0
IsAt id state store =
    (r : ToolAttemptRecord) × (get id store ≡ some r) × (r.state ≡ state) × (r.attempt_id ≡ id)

same_state_refl : (s : ToolAttemptState) → same_state s s ≡ true
same_state_refl s = grind arith

-- A transition that the table allows returns, and leaves the attempt in the new state.
pub move_returns :
    (id : String) (from to : ToolAttemptState) (changes : List Change) (store : ToolStateStore)
    → IsAt id from store
    → may_become from to ≡ true
    → (after : ToolStateStore) × (move id to changes store ≡ ok after) × IsAt id to after
unfolding move IsAt transition compare_and_set
move_returns id from to changes store at may =
    let r = at.0 in
    let q = apply_changes (record r { state = to }) changes in
    let keeps = apply_changes-keeps (record r { state = to }) changes in
    let may' : may_become r.state to ≡ true = ap (λ s. may_become s to) at.2 ∙ may in
    let own : q.attempt_id ≡ id = keeps.1 ∙ at.3 in
    let owns = (eq_iff q.attempt_id id).1 own in
    let same = same_state_refl r.state in
    (
      put id q store,
      rw (at.1, may', at.1, same, owns, move, transition, compare_and_set) refl,
      (q, get-put_same id q store, keeps.0, own),
    )

unfoldable pub Returns : {A : Type 0} → Result A → Type 0
Returns {A} result = (a : A) × (result ≡ ok a)

pub settle_made-Returns :
    (Input : Type 0) (id : String) (from to : ToolAttemptState) (made : Result ToolResult)
    (store : ToolStateStore)
    → IsAt id from store
    → may_become from to ≡ true
    → Returns made
    → Returns (settle_made {Input = Input} id to made store)
unfolding settle_made settle Returns
settle_made-Returns Input id from to made store at may makes =
    let changes = set_result makes.0 ∷ set_cleanup_errors [] ∷ [] in
    let moved = move_returns id from to changes store at may in
    ((moved.0, finished makes.0), rw (makes.1, moved.1, settle_made, settle) refl)

pub created-IsAt :
    (id : String) (request : ToolExecutionRequest) (store created : ToolStateStore)
    → create (new_attempt id request) store ≡ ok created
    → IsAt id ToolAttemptState.received created
unfolding IsAt
created-IsAt id request store created h =
    let fresh = create-ok (new_attempt id request) store created h in
    (
      new_attempt id request,
      ap (get id) fresh.1 ∙ get-put_same id (new_attempt id request) store,
      refl,
      refl,
    )

-- The text that an exception is told with is blank.
abbrev pub IsBlank : String → Type 0
IsBlank message = (error : Error) × (require_text message ≡ err error)

-- What the look-up says is no blank text.
pub materialize-cases :
    {Input : Type 0} (registrations : List (String × MaterializedTool Input))
    (name registration_id : String)
    → ((message : String) × (materialize registrations name registration_id ≡ not_found message)
        × IsShowable message)
      ⊎ (((message : String) × (materialize registrations name registration_id ≡ stale message)
            × IsShowable message)
          ⊎ ((registration : ToolRegistration Input) × (materialize registrations name
                  registration_id
                ≡ found registration)))
unfolding materialize
materialize-cases registrations name registration_id =
    elim (Option-cases (dict_get name registrations)) [
      | inl missing ↦ rw (missing, materialize) (inl (_, refl, not_found-IsShowable name))
      | inr (tool, has) ↦ elim (Bool-cases (str_eq tool.registration_id registration_id)) [
        | inl same ↦ rw (has, same, materialize) (inr (inr (_, refl)))
        | inr other ↦ rw (has, other, materialize) (inr (inl (_, refl, stale-IsShowable _)))
      ]
    ]

-- An attempt fails with a text, or the text is blank.
pub fails_with :
    (Input : Type 0) (request : ToolExecutionRequest) (id : String) (from to : ToolAttemptState)
    (code : String) (kind : ToolErrorKind) (message : String) (status : ToolStatus)
    (store : ToolStateStore)
    → IsChecked request
    → IsAt id from store
    → may_become from to ≡ true
    → IsText code
    → (status ≡ ToolStatus.error) ⊎ (status ≡ ToolStatus.denied)
    → IsShowable message
    → Returns
        (settle_made {Input = Input} id to (failure request code kind message status false) store)
unfolding Returns
fails_with Input request id from to code kind message status store checked at may named ends shown =
    settle_made-Returns Input id from to (failure request code kind message status false) store at
      may (failure_returns request code kind message status false checked named shown ends)
