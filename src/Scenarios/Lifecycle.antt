-- ===== src/Scenarios/Lifecycle.antt =====
-- The life of the plan at work.
use codepilot_stable.Base.{◌≡◌, refl, ok, some, [], ◌≤◌}
use codepilot_stable.Literals.{RunMode, PlanStatus, TerminationStatus}
use codepilot_stable.State.{CoreState}
use codepilot_stable.Contracts.{CoreDecision, terminate}
use codepilot_stable.Reducer.Facts.{CoreReduction}
use codepilot_stable.Reducer.Commands.{reduce_command}
use codepilot_stable.Reducer.Observe.{reduce_observation}
use codepilot_stable.Reducer.Decision.{apply_decision}
use codepilot_stable.Reducer.Lifecycle.{Moved, plan_status, plan_revision}
use codepilot_stable.Reducer.Lifecycle.Runs.{Evolves, reduce_command-Moved}
use codepilot_stable.Reducer.Lifecycle.History.{reduce_observation-Evolves, apply_decision-Moved}
use codepilot_stable.Reducer.Lifecycle.Ends.{Run, ended, observe, decided, run-revision, run_closed}
use codepilot_stable.Scenarios.Data.{
  waiting, with_status, small_plan, reduced_or, approval, approval_seen,
}

abbrev approved : CoreReduction
unfolding reduced_or
approved = reduced_or waiting (reduce_command waiting approval RunMode.build)

approving : reduce_command waiting approval RunMode.build ≡ ok approved
unfolding reduced_or approved
approving = refl

reduce_command-Moved_example : Moved waiting.task.plan approved.state.task.plan
reduce_command-Moved_example =
    reduce_command-Moved waiting approval RunMode.build approved approving

abbrev observed : CoreReduction
unfolding reduced_or
observed = reduced_or waiting (reduce_observation waiting approval_seen RunMode.build)

observing : reduce_observation waiting approval_seen RunMode.build ≡ ok observed
unfolding reduced_or observed
observing = refl

reduce_observation-Evolves_example : Evolves waiting.task.plan observed.state.task.plan
reduce_observation-Evolves_example =
    reduce_observation-Evolves waiting approval_seen RunMode.build observed observing

abbrev failing : CoreDecision
failing = terminate TerminationStatus.failed "task.blocked" "" []

abbrev failed_run : CoreReduction
unfolding reduced_or observed
failed_run = reduced_or waiting (apply_decision observed.state failing)

deciding : apply_decision observed.state failing ≡ ok failed_run
unfolding reduced_or failed_run
deciding = refl

apply_decision-Moved_example : Moved observed.state.task.plan failed_run.state.task.plan
apply_decision-Moved_example = apply_decision-Moved observed.state failing failed_run deciding

-- the user approves the plan, and the task fails
abbrev small_run : Run waiting failed_run.state
small_run =
    observe approval_seen RunMode.build observed observing
      (decided failing failed_run deciding ended)

run-revision_example : plan_revision waiting.task.plan ≤ plan_revision failed_run.state.task.plan
run-revision_example = run-revision small_run

-- The revisions of the run are 1, 2 and 3.
small_run_revision : plan_revision failed_run.state.task.plan ≡ 3
unfolding reduced_or failed_run
small_run_revision = refl

abbrev refused : CoreState
refused = with_status PlanStatus.rejected

abbrev after_refusal : CoreReduction
unfolding reduced_or
after_refusal = reduced_or refused (reduce_observation refused approval_seen RunMode.build)

observing_refused : reduce_observation refused approval_seen RunMode.build ≡ ok after_refusal
unfolding reduced_or after_refusal
observing_refused = refl

run_closed_example : plan_status after_refusal.state.task.plan ≡ some PlanStatus.rejected
run_closed_example =
    run_closed (small_plan PlanStatus.rejected)
      (observe approval_seen RunMode.build after_refusal observing_refused ended) refl refl
