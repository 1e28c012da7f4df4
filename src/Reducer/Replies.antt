-- ===== src/Reducer/Replies.antt =====
-- core/reducer.py: how a command is answered, and the tests that precede the work.
use codepilot_stable.Base.{
  ℕ, String, Bool, true, false, Option, none, some, List, [], ◌∷◌, ◌==◌, if◌then◌else◌, Result, ok,
  ◌>>=◌,
}
use codepilot_stable.Literals.{RunMode, PlanStatus, applied, rejected}
use codepilot_stable.Plan.{PlanState}
use codepilot_stable.State.{CoreState, plan_is_active}
use codepilot_stable.Commands.{CoreCommand, command_id, command_result}
use codepilot_stable.Events.{Payload, text, number, event}
use codepilot_stable.Reducer.Facts.{CoreReduction, reset_no_progress}

-- `_applied_plan_command`
unfoldable pub applied_plan_command :
    CoreState → CoreCommand → String → List (String × Payload) → Result CoreReduction
applied_plan_command s command event_type payload = do
  s' ← reset_no_progress s
  applied_event ← event event_type payload []
  result ← command_result (command_id command) applied ""
  ok (record { state = s'; events = applied_event ∷ []; command_results = result ∷ [] })

-- `_reject_command`
unfoldable pub reject_command : CoreState → CoreCommand → String → Result CoreReduction
reject_command s command reason = do
  rejected_event ←
      event "command_rejected"
        (("command_id", text (command_id command)) ∷ ("reason", text reason) ∷ []) []
  result ← command_result (command_id command) rejected reason
  ok (record { state = s; events = rejected_event ∷ []; command_results = result ∷ [] })

-- the payload of most plan events
abbrev pub plan_payload : String → ℕ → List (String × Payload)
plan_payload plan_id revision = ("plan_id", text plan_id) ∷ ("revision", number revision) ∷ []

-- A test ends in a reason to reject, or in the plan that it found.
pub data Checked : Type 0 where
  problem : String → Checked
  found : PlanState → Checked

-- `_plan_revision_problem`
unfoldable pub plan_revision_problem : Option PlanState → ℕ → Checked
plan_revision_problem none expected = problem "plan.missing"
plan_revision_problem (some plan) expected =
    if plan.revision == expected then found plan else problem "plan.revision_conflict"

abbrev pub require_active : Checked → Checked
require_active (problem reason) = problem reason
require_active (found plan) = if plan_is_active plan then found plan else problem "plan.not_active"

-- `_active_plan_problem`
unfoldable pub active_plan_problem : CoreState → ℕ → RunMode → Checked
unfolding plan_revision_problem
active_plan_problem s expected RunMode.read = problem "plan.read_only"
active_plan_problem s expected RunMode.plan = problem "plan.build_mode_required"
active_plan_problem s expected RunMode.build =
    require_active (plan_revision_problem s.task.plan expected)

-- `if problem is not None: return _reject_command(...)`, then the rest with the plan
abbrev pub on_found :
    CoreState → CoreCommand → Checked → (PlanState → Result CoreReduction) → Result CoreReduction
on_found s command (problem reason) rest = reject_command s command reason
on_found s command (found plan) rest = rest plan

abbrev pub plan_is_proposed : PlanState → Bool
plan_is_proposed p = elim p.status [ PlanStatus.proposed ↦ true | _ ↦ false ]
