-- ===== src/Scenarios/Reductions.antt =====
-- Reductions at work: what is delivered twice, and what is refused.
use codepilot_stable.Base.{List, ◌≡◌, refl, ok, err, some, [], ◌∷◌, plan_validation_error}
use codepilot_stable.Literals.{RunMode, PlanStatus, PlanStepStatus}
use codepilot_stable.State.{CoreState}
use codepilot_stable.Plan.{PlanState, PlanStepUpdate}
use codepilot_stable.Commands.{CoreCommand, approve_plan, submit_plan}
use codepilot_stable.Reducer.Facts.{CoreReduction, unchanged}
use codepilot_stable.Reducer.PlanCommands.{reduce_request_close, update_progress}
use codepilot_stable.Reducer.PlanCommands.Progress.{Progressed, update_progress-Progressed}
use codepilot_stable.Reducer.Commands.{reduce_command, apply_core_command}
use codepilot_stable.Reducer.Observe.{reduce_observation}
use codepilot_stable.Reducer.Once.{reduce_observation_once, apply_core_command_once}
use codepilot_stable.Reducer.Guards.{
  Refused, reduce_command_stale, reduce_command_read_only, request_close_raises,
}
use codepilot_stable.Scenarios.Data.{
  with_status, waiting, small_plan, read_step, goal_definition, read_file, reduced_or, approval,
  approval_seen, unplanned,
}

abbrev first : CoreReduction
unfolding reduced_or
first = reduced_or waiting (reduce_observation waiting approval_seen RunMode.build)

reduce_observation_once_example :
    reduce_observation first.state approval_seen RunMode.read ≡ ok (unchanged first.state)
unfolding reduced_or first
reduce_observation_once_example =
    reduce_observation_once waiting approval_seen RunMode.build RunMode.read first refl refl

abbrev first_applied : CoreReduction
unfolding reduced_or
first_applied = reduced_or waiting (apply_core_command waiting approval RunMode.build)

apply_core_command_once_example :
    apply_core_command first_applied.state approval RunMode.build
    ≡ ok (unchanged first_applied.state)
unfolding reduced_or first_applied
apply_core_command_once_example =
    apply_core_command_once waiting approval RunMode.build RunMode.build first_applied refl refl

-- an approval of a revision that the plan does not have
abbrev late : CoreCommand
late = approve_plan "c2" 7

abbrev late_reply : CoreReduction
unfolding reduced_or
late_reply = reduced_or waiting (reduce_command waiting late RunMode.build)

reduce_command_stale_example : Refused waiting late_reply
unfolding reduced_or late_reply
reduce_command_stale_example =
    reduce_command_stale waiting late RunMode.build 7 late_reply refl refl refl

abbrev submission : CoreCommand
submission = submit_plan "c3" goal_definition (read_file ∷ [])

abbrev read_reply : CoreReduction
unfolding reduced_or
read_reply = reduced_or unplanned (reduce_command unplanned submission RunMode.read)

reduce_command_read_only_example : Refused unplanned read_reply
unfolding reduced_or read_reply
reduce_command_read_only_example =
    reduce_command_read_only unplanned submission read_reply refl refl

-- an active plan with its one step completed
abbrev finished_plan : PlanState
finished_plan = record (small_plan PlanStatus.active) {
  steps = record read_step { status = PlanStepStatus.completed; completion_note = "done" } ∷ [];
}

abbrev finished : CoreState
finished = record waiting { task = record waiting.task { plan = some finished_plan } }

request_close_raises_example :
    reduce_request_close finished "c4" 1 "All done" ("unknown" ∷ []) RunMode.build
    ≡ err plan_validation_error
unfolding reduced_or
request_close_raises_example =
    request_close_raises finished "c4" 1 "All done" ("unknown" ∷ []) finished_plan refl refl refl
      refl refl

-- an update that completes the one step of an active plan
abbrev completing : List PlanStepUpdate
completing =
    record {
      step_id = "plan:a:step:1";
      status = PlanStepStatus.completed;
      completion_note = "done";
      evidence_refs = [];
    }
    ∷ []

abbrev started : CoreState
started = with_status PlanStatus.active

abbrev advanced : CoreReduction
unfolding reduced_or
advanced =
    reduced_or started (update_progress started "c6" 1 completing (small_plan PlanStatus.active))

update_progress-Progressed_example : Progressed started (small_plan PlanStatus.active) advanced
unfolding reduced_or advanced
update_progress-Progressed_example =
    update_progress-Progressed started "c6" 1 completing (small_plan PlanStatus.active) advanced
      (refl, tt) refl
