-- ===== src/Reducer/PlanCommands/Submission.antt =====
-- core/reducer.py: `_submit_plan`, for a first plan and for one that is proposed again.
use Prim.Native.String.{◌++◌}
use codepilot_stable.Base.{
  ◌+◌, String, Bool, true, false, ◌||◌, not, none, some, List, [], ◌∷◌, if◌then◌else◌, Result, ok,
  err, ◌>>=◌,
}
use codepilot_stable.Literals.{RunMode, PlanOrigin, PlanStatus, plan_incomplete}
use codepilot_stable.Plan.{
  PlanState, PlanDefinition, PlanStepDefinition, require_plan_mode_details, init_plan,
}
use codepilot_stable.State.{CoreState}
use codepilot_stable.Commands.{submit_plan}
use codepilot_stable.Events.{text, number}
use codepilot_stable.Reducer.Facts.{CoreReduction, with_plan, remove_blocker}
use codepilot_stable.Reducer.Steps.{new_steps, preserve_matching_steps}
use codepilot_stable.Reducer.Replies.{
  applied_plan_command, reject_command, plan_payload, plan_is_proposed,
}

abbrev pub is_plan_mode : RunMode → Bool
is_plan_mode RunMode.plan = true
is_plan_mode _ = false

abbrev pub origin_of : RunMode → PlanOrigin
origin_of RunMode.plan = PlanOrigin.plan_mode
origin_of _ = PlanOrigin.build_mode

abbrev pub first_status : RunMode → PlanStatus
first_status RunMode.plan = PlanStatus.proposed
first_status _ = PlanStatus.active

abbrev pub status_text : PlanStatus → String
status_text PlanStatus.proposed = "proposed"
status_text PlanStatus.active = "active"
status_text PlanStatus.completed = "completed"
status_text PlanStatus.rejected = "rejected"
status_text PlanStatus.abandoned = "abandoned"

-- `_submit_plan` where there is no plan yet
unfoldable pub submit_first :
    CoreState → String → PlanDefinition → List PlanStepDefinition → RunMode → Result CoreReduction
submit_first s id definition definitions mode = do
  let plan_id = "plan:" ++ id
  steps ← new_steps plan_id 1 definitions
  plan ← init_plan (record {
    plan_id = plan_id;
    origin = origin_of mode;
    status = first_status mode;
    revision = 1;
    definition = definition;
    steps = steps;
    pending_revision = none;
    close_request = none;
  })
  s1 ← with_plan s plan
  s2 ← remove_blocker s1 plan_incomplete
  applied_plan_command s2 (submit_plan id definition definitions) "plan_submitted" (
      ("plan_id", text plan.plan_id)
      ∷ ("status", text (status_text plan.status))
      ∷ ("revision", number plan.revision)
      ∷ [])

-- `_submit_plan` where a proposed plan is submitted again
unfoldable pub submit_again :
    CoreState → String → PlanDefinition → List PlanStepDefinition → PlanState → Result CoreReduction
submit_again s id definition definitions current = do
  replacement ← new_steps current.plan_id 1 definitions
  plan ← init_plan (record current {
    definition = definition;
    steps = preserve_matching_steps current.steps replacement;
    revision = current.revision + 1;
    pending_revision = none;
    close_request = none;
  })
  s1 ← with_plan s plan
  s2 ← remove_blocker s1 plan_incomplete
  applied_plan_command s2 (submit_plan id definition definitions) "plan_proposal_revised"
      (plan_payload plan.plan_id plan.revision)

-- `_submit_plan` behind the tests on the mode
unfoldable pub submit_allowed :
    CoreState → String → PlanDefinition → List PlanStepDefinition → RunMode → Result CoreReduction
unfolding submit_first submit_again
submit_allowed s id definition definitions mode = elim s.task.plan [
  | none ↦ submit_first s id definition definitions mode
  | some current ↦
      if not (is_plan_mode mode) || not (plan_is_proposed current)
      then reject_command s (submit_plan id definition definitions) "plan.already_exists"
      else submit_again s id definition definitions current
]

-- `_submit_plan`
unfoldable pub reduce_submit_plan :
    CoreState → String → PlanDefinition → List PlanStepDefinition → RunMode → Result CoreReduction
unfolding submit_allowed
reduce_submit_plan s id definition definitions RunMode.read =
    reject_command s (submit_plan id definition definitions) "plan.read_only"
reduce_submit_plan s id definition definitions RunMode.plan =
    elim (require_plan_mode_details definition) [
      | ok _ ↦ submit_allowed s id definition definitions RunMode.plan
      | err _ ↦
          reject_command s (submit_plan id definition definitions) "plan.definition_incomplete"
    ]
reduce_submit_plan s id definition definitions RunMode.build =
    submit_allowed s id definition definitions RunMode.build
