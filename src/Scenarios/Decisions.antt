-- ===== src/Scenarios/Decisions.antt =====
-- The decisions of the policy at work.
use codepilot_stable.Base.{
  ◌≡◌, refl, ok, err, none, [], true, false, ◌&&◌, ◌⊎◌, Result, length, ltb,
}
use codepilot_stable.State.{has_blocker}
use codepilot_stable.Literals.{plan_incomplete, PlanStatus, RunMode, TaskStatus}
use codepilot_stable.Contracts.{CoreDecision, execute_tools, default_limits}
use codepilot_stable.Reducer.Observe.{plan_is_unfinished}
use codepilot_stable.Observations.{UserInputObservation}
use codepilot_stable.Policy.{decide, is_read}
use codepilot_stable.Policy.Tests.{PolicyContext, is_final_candidate, is_cancellation, core_reason}
use codepilot_stable.Policy.Limits.{IsWithin, decide-IsWithin}
use codepilot_stable.Policy.Safety.{is_over, is_fatal, decide-goes_on}
use codepilot_stable.Policy.Confirm.{decide-offers_plan}
use codepilot_stable.Reducer.Facts.{CoreReduction}
use codepilot_stable.Reducer.Observe.{reduce_user_input}
use codepilot_stable.Reducer.Observe.Feedback.{Leaves, reduce_user_input_feedback}
use codepilot_stable.Policy.Success.{is_verified, decide-is_verified, decide-reports_success}
use codepilot_stable.Scenarios.Data.{waiting, small_plan, greeting, unplanned, answer, reduced_or}

abbrev building : PolicyContext
building = record { mode = RunMode.build; limits = default_limits }

abbrev decided_or : Result CoreDecision → CoreDecision
decided_or (ok decision) = decision
decided_or (err error) = execute_tools [] (core_reason "none")

abbrev success : CoreDecision
unfolding reduced_or
success = decided_or (decide unplanned answer building)

deciding_success : decide unplanned answer building ≡ ok success
unfolding reduced_or success
deciding_success = refl

decide-reports_success_example :
    (unplanned.task.status ≡ TaskStatus.satisfied)
    ⊎ (((is_final_candidate answer ≡ true) × (ltb 0 (length unplanned.task.blockers) ≡ false))
        × (plan_is_unfinished unplanned.task.plan ≡ false))
unfolding reduced_or success
decide-reports_success_example =
    decide-reports_success unplanned answer building success deciding_success refl

abbrev asking : CoreDecision
unfolding reduced_or
asking = decided_or (decide unplanned greeting building)

deciding_ask : decide unplanned greeting building ≡ ok asking
unfolding reduced_or asking
deciding_ask = refl

decide-IsWithin_example : IsWithin unplanned greeting building.limits
unfolding reduced_or asking
decide-IsWithin_example = decide-IsWithin unplanned greeting building asking deciding_ask refl refl

decide-goes_on_example :
    (is_over unplanned.task.status ≡ false)
    × (is_fatal unplanned.facts.failures.latest ≡ false)
    × (is_cancellation greeting ≡ false)
    × ((is_read building.mode && unplanned.facts.workspace.changed) ≡ false)
unfolding reduced_or asking
decide-goes_on_example = decide-goes_on unplanned greeting building asking deciding_ask refl

decide-is_verified_example : is_verified unplanned ≡ true
unfolding reduced_or success
decide-is_verified_example =
    decide-is_verified unplanned answer building success deciding_success refl refl refl

-- the plan waits, and the model has nothing to do
abbrev offering : CoreDecision
unfolding reduced_or
offering = decided_or (decide waiting answer building)

decide-offers_plan_example : has_blocker plan_incomplete waiting.task.blockers ≡ false
unfolding reduced_or offering
decide-offers_plan_example =
    decide-offers_plan waiting answer building (small_plan PlanStatus.proposed) offering refl refl
      refl refl

abbrev remark : UserInputObservation
remark = record { observation_id = "o4"; text = "Use tables"; current_goal = none }

abbrev remarked : CoreReduction
unfolding reduced_or
remarked = reduced_or waiting (reduce_user_input waiting remark)

reduce_user_input_feedback_example : Leaves waiting remark remarked.state.task.blockers
unfolding reduced_or remarked
reduce_user_input_feedback_example = reduce_user_input_feedback waiting remark remarked refl
