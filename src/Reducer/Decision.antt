-- ===== src/Reducer/Decision.antt =====
-- core/reducer.py: `apply_decision`, what a decision changes in the state.
use codepilot_stable.Base.{
  ◌+◌, String, Bool, true, false, ◌&&◌, ◌||◌, Option, none, some, List, [], ◌∷◌, all, if◌then◌else◌,
  Result, ok, ◌>>=◌,
}
use codepilot_stable.Literals.{TaskStatus, PlanStatus, TerminationStatus, ModelPurpose}
use codepilot_stable.Plan.{PlanState, is_completed, init_plan}
use codepilot_stable.State.{CoreState, TaskBlocker, init_task, plan_is_active}
use codepilot_stable.Events.{text, event}
use codepilot_stable.Contracts.{
  CoreDecision, call_model, execute_tools, wait, terminate, CoreReason,
}
use codepilot_stable.Reducer.Facts.{CoreReduction, unchanged}
use codepilot_stable.Reducer.Replies.{plan_is_proposed}

-- `status_map`
abbrev pub task_status : TerminationStatus → TaskStatus
task_status TerminationStatus.completed = TaskStatus.satisfied
task_status TerminationStatus.failed = TaskStatus.blocked
task_status TerminationStatus.cancelled = TaskStatus.abandoned

-- `event_map`
abbrev pub task_event : TerminationStatus → String
task_event TerminationStatus.completed = "task_satisfied"
task_event TerminationStatus.failed = "task_blocked"
task_event TerminationStatus.cancelled = "task_abandoned"

-- the plan of a task that has ended
unfoldable pub settle_plan : TerminationStatus → PlanState → Result PlanState
settle_plan TerminationStatus.completed plan =
    if plan_is_active plan && all is_completed plan.steps
    then init_plan (record plan { status = PlanStatus.completed; revision = plan.revision + 1 })
    else ok plan
settle_plan _ plan =
    if plan_is_proposed plan || plan_is_active plan
    then init_plan (record plan {
      status = PlanStatus.abandoned;
      pending_revision = none;
      close_request = none;
      revision = plan.revision + 1;
    })
    else ok plan

abbrev pub settle_option : TerminationStatus → Option PlanState → Result (Option PlanState)
settle_option status none = ok none
settle_option status (some plan) = do settled ← settle_plan status plan; ok (some settled)

abbrev pub settled_blockers : TerminationStatus → List TaskBlocker → List TaskBlocker
settled_blockers TerminationStatus.completed blockers = []
settled_blockers _ blockers = blockers

-- `apply_decision` for `Terminate`; `decision.reason.code` is the reason code.
unfoldable pub apply_terminate : CoreState → TerminationStatus → String → Result CoreReduction
unfolding settle_plan
apply_terminate s status reason_code = do
  plan ← settle_option status s.task.plan
  task ← init_task (record s.task {
    status = task_status status;
    plan = plan;
    blockers = settled_blockers status s.task.blockers;
  })
  ended ← event (task_event status) (("reason", text reason_code) ∷ []) []
  ok (record { state = record s { task = task }; events = ended ∷ []; command_results = [] })

-- `apply_decision` for `CallModel` with the purpose `recovery`
unfoldable pub apply_recovery : CoreState → CoreReason → Result CoreReduction
apply_recovery s reason = do
  requested ← event "recovery_requested" (("reason", text reason.code) ∷ []) []
  ok (record {
    state = record s {
      facts = record s.facts {
        counters = record s.facts.counters {
          total_recoveries = s.facts.counters.total_recoveries + 1;
        };
      };
    };
    events = requested ∷ [];
    command_results = [];
  })

abbrev pub is_recovery : ModelPurpose → Bool
is_recovery ModelPurpose.recovery = true
is_recovery _ = false

-- `apply_decision`
unfoldable pub apply_decision : CoreState → CoreDecision → Result CoreReduction
unfolding apply_terminate apply_recovery
apply_decision s (call_model purpose directive reason) =
    if is_recovery purpose then apply_recovery s reason else ok (unchanged s)
apply_decision s (execute_tools calls reason) = ok (unchanged s)
apply_decision s (wait w) = ok (unchanged s)
apply_decision s (terminate status code message refs) = apply_terminate s status code
