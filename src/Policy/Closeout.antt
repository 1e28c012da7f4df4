-- ===== src/Policy/Closeout.antt =====
-- What the policy does with an active plan whose steps are all completed.
use codepilot_stable.Base.{
  ◌≡◌, refl, ap, ◌∙◌, true, false, none, some, [], all, length, ltb, traverse, from_keys, ok, arith,
}
use codepilot_stable.Literals.{TaskStatus, TerminationStatus}
use codepilot_stable.Text.{is_empty, is_space, strip, lstrip, rstrip}
use codepilot_stable.Plan.{PlanState, is_completed}
use codepilot_stable.State.{CoreState, plan_is_active}
use codepilot_stable.Observations.{ModelObservation, model}
use codepilot_stable.Contracts.{terminate, required_core_text, reference_tuple}
use codepilot_stable.Reducer.Replies.{plan_is_proposed}
use codepilot_stable.Policy.{
  ended, fatal, cancelled, is_read, read_violated, budget_reason, budget_wait, requested_tools,
  confirm_revision, recovery, replan, close_plan, active_plan, on_plan, decide_open, decide_plan,
  decide,
}
use codepilot_stable.Policy.Success.{no_blocker}
use codepilot_stable.Policy.Tests.{
  PolicyContext, is_final_model, is_final_candidate, is_cancellation, observed_calls, stop,
  external_wait,
}

-- The task is under way, and no failure is on record.
abbrev pub IsUnderWay : CoreState → Type 0
IsUnderWay s = (s.task.status ≡ TaskStatus.active) × (s.facts.failures.latest ≡ none)

-- The plan is active, waits for nothing, and all its steps are completed.
abbrev pub IsDone : PlanState → Type 0
IsDone p =
    (plan_is_active p ≡ true) × (p.pending_revision ≡ none) × (all is_completed p.steps ≡ true)

front-none :
    (s : CoreState) (m : ModelObservation) (c : PolicyContext)
    → IsUnderWay s
    → is_read c.mode ≡ false
    → (ended s ≡ none)
      × (fatal s ≡ none)
      × (external_wait (model m) ≡ none)
      × (cancelled (model m) ≡ none)
      × (read_violated s c.mode ≡ none)
unfolding ended fatal external_wait cancelled read_violated is_cancellation
front-none s m c (e, f) r = (ground arith, ground arith, refl, refl, ground arith)

budget_wait-none :
    (s : CoreState) (m : ModelObservation) (c : PolicyContext)
    → budget_reason s (model m) c ≡ none
    → budget_wait s (model m) c ≡ none
unfolding budget_wait
budget_wait-none s m c h = ground arith

final-no_calls :
    (m : ModelObservation)
    → is_final_model m ≡ true
    → ltb 0 (length (observed_calls (model m))) ≡ false
unfolding is_final_model observed_calls
final-no_calls m h = ground arith

requested_tools-none :
    (m : ModelObservation) → is_final_model m ≡ true → requested_tools (model m) ≡ none
unfolding requested_tools
requested_tools-none m h = rw (final-no_calls m h) refl

recovery-none :
    (s : CoreState) (m : ModelObservation) (c : PolicyContext)
    → s.facts.failures.latest ≡ none
    → recovery s (model m) c ≡ none
unfolding recovery
recovery-none s m c h = ground arith

replan-none : (s : CoreState) → ltb 0 (length s.task.blockers) ≡ false → replan s ≡ none
unfolding replan
replan-none s h = let b = no_blocker s.task.blockers h in ground arith

close_plan-final :
    (s : CoreState) (m : ModelObservation)
    → ltb 0 (length s.task.blockers) ≡ false
    → is_final_model m ≡ true
    → close_plan s (model m) ≡ stop TerminationStatus.completed "plan.completed" "" []
unfolding close_plan is_final_candidate
close_plan-final s m b h = rw (b, h) refl

completed :
    stop TerminationStatus.completed "plan.completed" "" []
    ≡ ok (terminate TerminationStatus.completed "plan.completed" "" [])
unfolding stop required_core_text reference_tuple strip lstrip rstrip is_space is_empty traverse
    from_keys
completed = refl

active_plan-done :
    (s : CoreState) (m : ModelObservation) (p : PlanState)
    → IsDone p
    → active_plan s (model m) p ≡ some (close_plan s (model m))
unfolding active_plan
active_plan-done s m p (e, q, d) = rw (e, d) refl

confirm_revision-none : (p : PlanState) → IsDone p → confirm_revision p ≡ none
unfolding confirm_revision
confirm_revision-none p (e, q, d) = rw (e, q) refl

not_proposed : (p : PlanState) → plan_is_active p ≡ true → plan_is_proposed p ≡ false
not_proposed p h = ground arith

open_done :
    (s : CoreState) (m : ModelObservation) (c : PolicyContext) (p : PlanState)
    → IsUnderWay s
    → s.task.plan ≡ some p
    → IsDone p
    → is_final_model m ≡ true
    → ltb 0 (length s.task.blockers) ≡ false
    → budget_reason s (model m) c ≡ none
    → decide_open s (model m) c ≡ stop TerminationStatus.completed "plan.completed" "" []
unfolding decide_open
open_done s m c p (e, f) at_plan is_done final b budget =
    let a = ap (λ o. on_plan o confirm_revision) at_plan ∙ confirm_revision-none p is_done in
    let d =
      ap (λ o. on_plan o (active_plan s (model m))) at_plan ∙ active_plan-done s m p is_done in
    simp (
      a,
      budget_wait-none s m c budget,
      requested_tools-none m final,
      recovery-none s m c f,
      replan-none s b,
      d,
      close_plan-final s m b final,
    )

decide_plan-open :
    (s : CoreState) (m : ModelObservation) (c : PolicyContext) (p : PlanState)
    → s.task.plan ≡ some p
    → plan_is_proposed p ≡ false
    → decide_plan s (model m) c ≡ decide_open s (model m) c
unfolding decide_plan
decide_plan-open s m c p e k = ground arith

-- With a final answer of the model, nothing that blocks the task, no failure on record and no limit
-- passed, the policy ends the task of an active plan whose steps are all completed as completed, outside
-- the read mode: whatever was changed and whatever verification says of it.
pub decide-IsDone :
    (s : CoreState) (m : ModelObservation) (c : PolicyContext) (p : PlanState)
    → IsUnderWay s
    → s.task.plan ≡ some p
    → IsDone p
    → is_final_model m ≡ true
    → ltb 0 (length s.task.blockers) ≡ false
    → budget_reason s (model m) c ≡ none
    → is_read c.mode ≡ false
    → decide s (model m) c ≡ ok (terminate TerminationStatus.completed "plan.completed" "" [])
unfolding decide
decide-IsDone s m c p w at_plan is_done final b budget r =
    let (e1, e2, e3, e4, e5) = front-none s m c w r in
    simp (e1, e2, e3, e4, e5)
      (decide_plan-open s m c p at_plan (not_proposed p is_done.0)
        ∙ (open_done s m c p w at_plan is_done final b budget ∙ completed))
