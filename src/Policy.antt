-- ===== src/Policy.antt =====
-- core/policy.py: `CorePolicy.decide`. Each early return of the source is a test of its own, which
-- gives a decision or passes; the tests stand in the order of the source. A decision may raise
-- when it is made, hence `Result`.
pub mod Tests
pub mod Safety
pub mod Limits
pub mod Quiet
pub mod Success
pub mod Confirm
pub mod Closeout
pub mod Gates
unfoldable pub use Gates.*
use Prim.Native.String.{◌++◌}
use codepilot_stable.Base.{
  ℕ, String, Bool, true, false, ◌&&◌, ◌||◌, not, Option, none, some, List, [], ◌∷◌, map, any, all,
  filter, length, ltb, leb, str_eq, if◌then◌else◌, Result, ok, err, ◌>>=◌,
}
use mathlib.Core.List.{flat_map}
use codepilot_stable.Literals.{
  RunMode, TaskStatus, ModelPurpose, CoreWaitKind, TerminationStatus, CoreAssessmentStatus,
  plan_incomplete, replan_required,
}
use codepilot_stable.Text.{join}
use codepilot_stable.Text.Decimal.{show}
use codepilot_stable.Plan.{PlanState, PlanStep, is_completed, step_ids}
use codepilot_stable.State.{
  CoreState, TaskBlocker, FailureRecord, has_blocker, kind_eq, is_none, plan_is_active, count_for,
  assess_core_state,
}
use codepilot_stable.Events.{text, number}
use codepilot_stable.Observations.{
  CoreObservation, model, tool_batch, user_input, core_command, cancellation,
}
use codepilot_stable.Reducer.Replies.{plan_is_proposed}
use codepilot_stable.Contracts.{CoreDecision, new_execute_tools}
use codepilot_stable.Policy.Tests.{
  PolicyContext, observed_calls, is_final_candidate, is_cancellation, needs_recovery, ask_model,
  stop, wait_for, core_reason, external_wait,
}

-- what `decide` does with a recoverable failure that the observation bears out
unfoldable pub recover : CoreState → PolicyContext → FailureRecord → Result CoreDecision
recover s context f =
    if has_blocker replan_required s.task.blockers
    then ask_model ModelPurpose.replan "replan.required" f.evidence_refs []
    else if leb (count_for s.facts.failures f.code) context.limits.max_recovery_attempts
    then ask_model ModelPurpose.recovery "recovery.required" f.evidence_refs []
    else stop TerminationStatus.failed "core.recovery_exhausted" "" f.evidence_refs

unfoldable pub recovery : CoreState → CoreObservation → PolicyContext → Verdict
unfolding recover
recovery s o context = elim s.facts.failures.latest [
  | none ↦ none
  | some f ↦ if f.recoverable && needs_recovery s o then some (recover s context f) else none
]

-- the references of the blockers
abbrev pub blocker_refs : List TaskBlocker → List String
blocker_refs blockers = flat_map (λ item. item.evidence_refs) blockers

unfoldable pub replan : CoreState → Verdict
replan s =
    if has_blocker replan_required s.task.blockers
    then some (
        ask_model ModelPurpose.replan "replan.required"
          (blocker_refs
            (filter (λ (item : TaskBlocker). kind_eq item.kind replan_required) s.task.blockers))
          [])
    else none

-- an active plan whose steps are all completed
unfoldable pub close_plan : CoreState → CoreObservation → Result CoreDecision
close_plan s o =
    if ltb 0 (length s.task.blockers)
    then ask_model ModelPurpose.recovery "task.blocked" (blocker_refs s.task.blockers) []
    else if is_final_candidate o
    then stop TerminationStatus.completed "plan.completed" "" []
    else ask_model ModelPurpose.final_response "final_response.required" [] []

abbrev pub pending_steps : PlanState → List String
pending_steps plan = step_ids (filter (λ s. not (is_completed s)) plan.steps)

-- a final answer while steps of the active plan are open
unfoldable pub reconcile : CoreState → PlanState → Result CoreDecision
reconcile s plan =
    if leb 2 s.facts.loop_guards.repeated_no_progress
    then stop TerminationStatus.failed "plan.reconciliation_exhausted"
        ("The model produced a final response twice while "
          ++ "the active Task Plan still had incomplete steps.")
        (pending_steps plan)
    else ask_model ModelPurpose.reasoning "plan.reconciliation_required" [] (
        ("Active Plan expected_revision=" ++ (show plan.revision ++ "."))
        ∷ ("Incomplete step_ids: " ++ join ", " (pending_steps plan))
        ∷ ("Reconcile the canonical Plan with the work actually "
            ++ ("completed. If an incomplete step is complete, call "
                ++ ("update_plan_progress with the current expected_revision "
                    ++ "and only the changed step_ids.")))
        ∷ ("If any step is not complete, continue the required "
            ++ ("implementation or verification work. Do not emit another "
                ++ "final response while incomplete steps remain."))
        ∷ [])

unfoldable pub active_plan : CoreState → CoreObservation → PlanState → Verdict
unfolding close_plan reconcile
active_plan s o plan =
    if not (plan_is_active plan)
    then none
    else if all is_completed plan.steps
    then some (close_plan s o)
    else if is_final_candidate o
    then some (reconcile s plan)
    else none

abbrev pub on_plan : Option PlanState → (PlanState → Verdict) → Verdict
on_plan none test = none
on_plan (some plan) test = test plan

abbrev needs_verification : CoreAssessmentStatus → Bool
needs_verification CoreAssessmentStatus.needs_verification = true
needs_verification _ = false

-- a changed workspace that has not been verified since
unfoldable pub verify : CoreState → Verdict
verify s =
    if needs_verification (assess_core_state s).status
    then some (
        ask_model ModelPurpose.verification "verification.required" s.facts.workspace.evidence_refs
          [])
    else none

-- the end of `decide`
unfoldable pub finish : CoreState → CoreObservation → PolicyContext → Result CoreDecision
unfolding read_violated
finish s o context =
    if is_final_candidate o
    then or_then (read_violated s context.mode) (
        if ltb 0 (length s.task.blockers)
        then ask_model ModelPurpose.recovery "task.blocked" (blocker_refs s.task.blockers) []
        else stop TerminationStatus.completed "task.completed" "" [])
    else ask_model ModelPurpose.reasoning "reasoning.continue" [] []

-- `decide` behind the tests for a proposed plan
unfoldable pub decide_open : CoreState → CoreObservation → PolicyContext → Result CoreDecision
decide_open s o context = or_then (on_plan s.task.plan confirm_revision) (
    or_then (budget_wait s o context) (
      or_then (requested_tools o) (
        or_then (recovery s o context) (
          or_then (replan s) (
            or_then (on_plan s.task.plan (active_plan s o))
              (or_then (verify s) (finish s o context)))))))

-- the branch for a proposed plan, or the rest
unfoldable pub decide_plan : CoreState → CoreObservation → PolicyContext → Result CoreDecision
unfolding decide_open
decide_plan s o context = elim s.task.plan [
  | none ↦ decide_open s o context
  | some plan ↦
      if plan_is_proposed plan
      then or_then (requested_tools o) (confirm_plan s o context plan)
      else decide_open s o context
]

-- `CorePolicy.decide`
unfoldable pub decide : CoreState → CoreObservation → PolicyContext → Result CoreDecision
unfolding decide_plan
decide s o context = or_then (ended s) (
    or_then (fatal s) (
      or_then (external_wait o)
        (or_then (cancelled o) (or_then (read_violated s context.mode) (decide_plan s o context)))))
