-- ===== src/Policy/Gates.antt =====
-- core/policy.py: the tests of `decide` up to those on a plan that waits for the user.
use Prim.Native.String.{◌++◌}
use codepilot_stable.Base.{
  ℕ, String, Bool, true, false, ◌&&◌, ◌||◌, not, Option, none, some, [], ◌∷◌, length, ltb, leb,
  str_eq, if◌then◌else◌, Result,
}
use codepilot_stable.Literals.{
  RunMode, TaskStatus, ModelPurpose, CoreWaitKind, TerminationStatus, plan_incomplete,
}
use codepilot_stable.Plan.{PlanState}
use codepilot_stable.State.{CoreState, has_blocker, is_none, plan_is_active}
use codepilot_stable.Events.{text, number}
use codepilot_stable.Observations.{CoreObservation, model, tool_batch, user_input}
use codepilot_stable.Contracts.{CoreDecision, new_execute_tools}
use codepilot_stable.Policy.Tests.{
  PolicyContext, observed_calls, is_final_candidate, is_cancellation, ask_model, stop, wait_for,
  core_reason,
}

-- a test of `decide`: `none` passes on to the next
abbrev pub Verdict : Type 0
Verdict = Option (Result CoreDecision)

abbrev pub or_then : Verdict → Result CoreDecision → Result CoreDecision
or_then none rest = rest
or_then (some decision) rest = decision

-- a task that has ended
unfoldable pub ended : CoreState → Verdict
ended s = elim s.task.status [
  | TaskStatus.satisfied ↦ some (stop TerminationStatus.completed "task.completed" "" [])
  | TaskStatus.abandoned ↦ some (stop TerminationStatus.cancelled "run.cancelled" "" [])
  | _ ↦ none
]

-- a failure that cannot be recovered from
unfoldable pub fatal : CoreState → Verdict
fatal s = elim s.facts.failures.latest [
  | none ↦ none
  | some f ↦
      if not f.recoverable && not (str_eq f.code "run.cancelled")
      then some (stop TerminationStatus.failed f.code f.message f.evidence_refs)
      else none
]

unfoldable pub cancelled : CoreObservation → Verdict
cancelled o =
    if is_cancellation o
    then some (stop TerminationStatus.cancelled "run.cancelled" "" [])
    else none

abbrev pub is_read : RunMode → Bool
is_read RunMode.read = true
is_read _ = false

-- a change of the workspace in the read mode
unfoldable pub read_violated : CoreState → RunMode → Verdict
read_violated s mode =
    if is_read mode && s.facts.workspace.changed
    then some (stop TerminationStatus.failed "read.workspace_changed" "" [])
    else none

abbrev pub is_model : CoreObservation → Bool
is_model (model o) = true
is_model _ = false

abbrev pub is_tool_batch : CoreObservation → Bool
is_tool_batch (tool_batch o) = true
is_tool_batch _ = false

abbrev pub over_limit : ℕ → Option ℕ → Bool
over_limit n none = false
over_limit n (some limit) = ltb limit n

-- the reason of `_budget_wait`
unfoldable pub budget_reason : CoreState → CoreObservation → PolicyContext → Option String
budget_reason s o context =
    let turns = s.facts.counters.model_turns in
    let final = is_final_candidate o && not (ltb 0 (length s.task.blockers)) in
    if ltb context.limits.max_model_turns turns
      || (leb context.limits.max_model_turns turns
          && (is_model o || is_tool_batch o)
          && not (ltb 0 (length (observed_calls o)))
          && not final)
    then some "run.max_model_turns"
    else if ltb context.limits.max_tool_iterations s.facts.counters.tool_iterations
    then some "run.max_tool_iterations"
    else if over_limit s.facts.counters.tool_calls context.limits.max_tool_calls
    then some "run.max_tool_calls"
    else if ltb context.limits.repeated_tool_call_limit s.facts.loop_guards.repeated_tool_calls
    then some "run.repeated_tool_call"
    else none

-- `_budget_wait`
unfoldable pub budget_wait : CoreState → CoreObservation → PolicyContext → Verdict
unfolding budget_reason
budget_wait s o context = elim (budget_reason s o context) [
  | none ↦ none
  | some reason ↦
      some (wait_for CoreWaitKind.continuation ("continuation:" ++ reason) (core_reason reason) [])
]

-- calls that the model asks for
unfoldable pub requested_tools : CoreObservation → Verdict
requested_tools o =
    if ltb 0 (length (observed_calls o))
    then some (new_execute_tools (observed_calls o) (core_reason "model.requested_tools"))
    else none

-- a user's text that differs from the goal
unfoldable pub is_feedback : CoreState → CoreObservation → Bool
is_feedback s (user_input o) = not (str_eq o.text s.task.current_goal)
is_feedback s _ = false

-- the branch of `decide` for a proposed plan, behind the calls of the model
unfoldable pub confirm_plan :
    CoreState → CoreObservation → PolicyContext → PlanState → Result CoreDecision
unfolding is_feedback
confirm_plan s o context plan =
    if is_feedback s o
    then ask_model ModelPurpose.replan "plan.feedback_received" [] []
    else if has_blocker plan_incomplete s.task.blockers
    then or_then (budget_wait s o context)
        (ask_model ModelPurpose.replan "plan.revision_submission_required" [] [])
    else wait_for CoreWaitKind.plan_confirmation plan.plan_id
        (core_reason "plan.confirmation_required")
        (("plan_id", text plan.plan_id) ∷ ("revision", number plan.revision) ∷ [])

-- an active plan with a revision that waits for the user
unfoldable pub confirm_revision : PlanState → Verdict
confirm_revision plan =
    if plan_is_active plan && not (is_none plan.pending_revision)
    then some (
        wait_for CoreWaitKind.plan_confirmation plan.plan_id
          (core_reason "plan.revision_confirmation_required")
          (("plan_id", text plan.plan_id)
            ∷ ("revision", number plan.revision)
            ∷ ("confirmation", text "revision")
            ∷ []))
    else none
