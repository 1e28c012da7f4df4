-- ===== src/Commands.antt =====
-- core/commands.py: the commands, the checks that each passes when it is made, and their results.
use codepilot_stable.Base.{
  ℕ, String, ◌&&◌, List, map, length, from_keys, ltb, leb, ◌==◌, if◌then◌else◌, value_error, Result,
  ok, err, ◌>>=◌, ◌>>◌, guard, traverse,
}
use codepilot_stable.Literals.{PlanRevisionReason, CommandStatus}
use codepilot_stable.Text.{is_empty, strip}
use codepilot_stable.Plan.{PlanDefinition, PlanStepDefinition, PlanStepUpdate, max_plan_items}

-- A constructor is a command class, its arguments are the fields: first `command_id`, then
-- `expected_revision` where the class has it.
pub data CoreCommand : Type 0 where
  submit_plan : String → PlanDefinition → List PlanStepDefinition → CoreCommand
  update_plan_progress : String → ℕ → List PlanStepUpdate → CoreCommand
  propose_plan_revision :
      String → ℕ → PlanRevisionReason → PlanDefinition → List PlanStepDefinition → CoreCommand
  request_plan_close : String → ℕ → String → List String → CoreCommand
  approve_plan : String → ℕ → CoreCommand
  reject_plan : String → ℕ → String → CoreCommand
  approve_plan_revision : String → ℕ → CoreCommand
  reject_plan_revision : String → ℕ → String → CoreCommand
  abandon_plan : String → ℕ → String → CoreCommand
  report_verification_unavailable : String → String → List String → List String → CoreCommand

abbrev pub command_id : CoreCommand → String
command_id (submit_plan id definition steps) = id
command_id (update_plan_progress id revision updates) = id
command_id (propose_plan_revision id revision reason definition steps) = id
command_id (request_plan_close id revision summary refs) = id
command_id (approve_plan id revision) = id
command_id (reject_plan id revision reason) = id
command_id (approve_plan_revision id revision) = id
command_id (reject_plan_revision id revision reason) = id
command_id (abandon_plan id revision reason) = id
command_id (report_verification_unavailable id reason checks refs) = id

pub record CommandResult : Type 0 where
  pub command_id : String
  pub status : CommandStatus
  pub reason : String

-- `_required_text`
unfoldable pub required_text : String → Result String
required_text value = let text = strip value in if is_empty text then err value_error else ok text

-- `_text_tuple`
unfoldable pub text_tuple : List String → Result (List String)
text_tuple values = do texts ← traverse required_text values; ok (from_keys texts)

-- `_step_definitions`
unfoldable pub step_definitions : List PlanStepDefinition → Result (List PlanStepDefinition)
step_definitions steps = do
  guard (leb 1 (length steps) && leb (length steps) max_plan_items) value_error
  ok steps

-- `UpdatePlanProgress.__post_init__`: some updates, each of a step of its own
unfoldable pub check_updates : List PlanStepUpdate → Result (List PlanStepUpdate)
check_updates updates = do
  guard (ltb 0 (length updates)) value_error
  guard (length (from_keys (map (λ u. u.step_id) updates)) == length updates) value_error
  ok updates

-- `__post_init__` of the commands
unfoldable pub init_command : CoreCommand → Result CoreCommand
init_command (submit_plan id definition steps) = do
  id' ← required_text id
  steps' ← step_definitions steps
  ok (submit_plan id' definition steps')
init_command (update_plan_progress id revision updates) = do
  id' ← required_text id
  updates' ← check_updates updates
  ok (update_plan_progress id' revision updates')
init_command (propose_plan_revision id revision reason definition steps) = do
  id' ← required_text id
  steps' ← step_definitions steps
  ok (propose_plan_revision id' revision reason definition steps')
init_command (request_plan_close id revision summary refs) = do
  id' ← required_text id
  summary' ← required_text summary
  refs' ← text_tuple refs
  guard (ltb 0 (length refs')) value_error
  ok (request_plan_close id' revision summary' refs')
init_command (approve_plan id revision) = do id' ← required_text id; ok (approve_plan id' revision)
init_command (reject_plan id revision reason) = do
  id' ← required_text id
  reason' ← required_text reason
  ok (reject_plan id' revision reason')
init_command (approve_plan_revision id revision) = do
  id' ← required_text id
  ok (approve_plan_revision id' revision)
init_command (reject_plan_revision id revision reason) = do
  id' ← required_text id
  reason' ← required_text reason
  ok (reject_plan_revision id' revision reason')
init_command (abandon_plan id revision reason) = do
  id' ← required_text id
  reason' ← required_text reason
  ok (abandon_plan id' revision reason')
init_command (report_verification_unavailable id reason checks refs) = do
  id' ← required_text id
  reason' ← required_text reason
  checks' ← text_tuple checks
  refs' ← text_tuple refs
  ok (report_verification_unavailable id' reason' checks' refs')

-- `CommandResult(command_id, status, reason)`
unfoldable pub command_result : String → CommandStatus → String → Result CommandResult
command_result id status reason = do
  id' ← required_text id
  ok (record { command_id = id'; status = status; reason = strip reason })
