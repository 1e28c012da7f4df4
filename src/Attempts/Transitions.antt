-- ===== src/Attempts/Transitions.antt =====
-- The life cycle of an attempt: `_TOOL_ATTEMPT_TRANSITIONS` and `transition` of tools/state.py.
pub mod Bounds
use Prim.Native.String.{◌++◌}
use codepilot_stable.Base.{
  ℕ, String, Bool, true, false, some, List, [], ◌∷◌, any, ◌==◌, Result, err, ok, value_error,
  if◌then◌else◌,
}
use codepilot_stable.Security.Types.{ToolExecutionRequest}
use codepilot_stable.Attempts.Types.{
  ToolAttemptState, ToolAttemptRecord, Change, set_challenge, set_interaction,
  set_interaction_consumed, set_grant, set_grant_consumed, set_result, set_cleanup_errors,
}

abbrev pub state_index : ToolAttemptState → ℕ
state_index ToolAttemptState.received = 0
state_index ToolAttemptState.validating = 1
state_index ToolAttemptState.resolving_access = 2
state_index ToolAttemptState.awaiting_approval = 3
state_index ToolAttemptState.awaiting_input = 4
state_index ToolAttemptState.queued = 5
state_index ToolAttemptState.running = 6
state_index ToolAttemptState.succeeded = 7
state_index ToolAttemptState.failed = 8
state_index ToolAttemptState.denied = 9
state_index ToolAttemptState.timed_out = 10
state_index ToolAttemptState.cancelled = 11
state_index ToolAttemptState.interrupted = 12

-- `a == b` on states
abbrev pub same_state : ToolAttemptState → ToolAttemptState → Bool
same_state a b = state_index a == state_index b

-- `_TOOL_ATTEMPT_TRANSITIONS`
unfoldable pub next_states : ToolAttemptState → List ToolAttemptState
next_states ToolAttemptState.received = ToolAttemptState.validating ∷ []
next_states ToolAttemptState.validating =
    ToolAttemptState.resolving_access ∷ ToolAttemptState.failed ∷ []
next_states ToolAttemptState.resolving_access =
    ToolAttemptState.awaiting_approval ∷ ToolAttemptState.queued ∷ ToolAttemptState.denied ∷ []
next_states ToolAttemptState.awaiting_approval =
    ToolAttemptState.resolving_access ∷ ToolAttemptState.denied ∷ []
next_states ToolAttemptState.awaiting_input =
    ToolAttemptState.succeeded ∷ ToolAttemptState.failed ∷ []
next_states ToolAttemptState.queued =
    ToolAttemptState.running ∷ ToolAttemptState.failed ∷ ToolAttemptState.timed_out
    ∷ ToolAttemptState.cancelled ∷ ToolAttemptState.interrupted ∷ []
next_states ToolAttemptState.running =
    ToolAttemptState.awaiting_input ∷ ToolAttemptState.succeeded ∷ ToolAttemptState.failed
    ∷ ToolAttemptState.timed_out ∷ ToolAttemptState.cancelled ∷ []
next_states _ = []

-- `state in _TOOL_ATTEMPT_TRANSITIONS[current]`
unfoldable pub may_become : ToolAttemptState → ToolAttemptState → Bool
unfolding next_states any
may_become current state = any (λ s. same_state s state) (next_states current)

unfoldable pub apply_change : ToolAttemptRecord → Change → ToolAttemptRecord
apply_change r (set_challenge c) = record r { challenge = some c }
apply_change r (set_interaction i) = record r { interaction = some i }
apply_change r (set_interaction_consumed b) = record r { interaction_consumed = b }
apply_change r (set_grant g) = record r { grant = some g }
apply_change r (set_grant_consumed b) = record r { grant_consumed = b }
apply_change r (set_result v) = record r { result = some v }
apply_change r (set_cleanup_errors es) = record r { cleanup_errors = es }

-- `replace(record, **changes)`
unfoldable pub apply_changes : ToolAttemptRecord → List Change → ToolAttemptRecord
unfolding apply_change
apply_changes r [] = r
apply_changes r (change ∷ changes) = apply_changes (apply_change r change) changes

unfoldable pub transition :
    ToolAttemptRecord → ToolAttemptState → List Change → Result ToolAttemptRecord
unfolding may_become apply_changes
transition r state changes =
    if may_become r.state state
    then ok (apply_changes (record r { state = state }) changes)
    else err value_error

-- `attempt_id_for`
unfoldable pub attempt_id_for : ToolExecutionRequest → String
attempt_id_for request = request.session_id ++ ":" ++ request.run_id ++ ":" ++ request.tool_call_id
