-- ===== src/Reducer/Observe.antt =====
-- core/reducer.py: the reductions of the other observations, and `reduce_observation`.
pub mod Feedback
use codepilot_stable.Base.{
  ◌+◌, String, Bool, true, false, ◌&&◌, ◌||◌, not, Option, none, some, List, [], ◌∷◌, any, all,
  contains, str_eq, if◌then◌else◌, Result, ok, ◌>>=◌,
}
use mathlib.Core.List.{◌++◌}
use codepilot_stable.Literals.{RunMode, TaskStatus, user_input_required, plan_incomplete}
use codepilot_stable.Plan.{PlanState, is_completed}
use codepilot_stable.State.{
  CoreState, TaskBlocker, FailureRecord, init_task, init_blocker, init_failure, init_loop_guards,
  plan_is_active,
}
use codepilot_stable.Tools.{AssistantBlock}
use codepilot_stable.Events.{CoreDomainEvent, text, event}
use codepilot_stable.Observations.{
  ModelObservation, UserInputObservation, CancellationObservation, CoreObservation, model,
  tool_batch, user_input, core_command, cancellation, observation_id, is_failed, is_text, is_call,
}
use codepilot_stable.Reducer.Facts.{
  CoreReduction, unchanged, without, record_failure, failure_event, mark_seen, reset_no_progress,
}
use codepilot_stable.Reducer.Replies.{plan_is_proposed}
use codepilot_stable.Reducer.Commands.{apply_core_command}
use codepilot_stable.Reducer.ToolBatch.{reduce_tools}

-- `_model_message_is_empty`
unfoldable pub model_message_is_empty : ModelObservation → Bool
model_message_is_empty o = elim o.message [
  | none ↦ true
  | some blocks ↦ not (any (λ block. is_call block || is_text block) blocks)
]

-- `has_text and not has_tools`
unfoldable pub is_final_message : List AssistantBlock → Bool
is_final_message blocks = any is_text blocks && not (any is_call blocks)

abbrev pub plan_is_unfinished : Option PlanState → Bool
plan_is_unfinished none = false
plan_is_unfinished (some plan) = plan_is_active plan && not (all is_completed plan.steps)

-- `_is_unfinished_plan_final_candidate`
unfoldable pub is_unfinished_plan_final_candidate : CoreState → ModelObservation → Bool
unfolding is_final_message
is_unfinished_plan_final_candidate s o =
    plan_is_unfinished s.task.plan
    && not (is_failed o.status)
    && (elim o.message [ none ↦ false | some blocks ↦ is_final_message blocks ])

-- the failure that a model observation stands for: an empty answer is one
unfoldable pub model_failure : ModelObservation → Result (Option FailureRecord)
unfolding model_message_is_empty
model_failure o =
    if not (is_failed o.status) && model_message_is_empty o
    then (do
      failure ← init_failure (record {
        code = "model.empty_response";
        source = "model";
        message = "Model returned no text or tool calls";
        recoverable = true;
        evidence_refs = o.observation_id ∷ [];
      })
      ok (some failure))
    else ok o.error

-- the end of `_reduce_model`
unfoldable pub note_failure :
    CoreState → CoreDomainEvent → Option FailureRecord → Result CoreReduction
note_failure s observed none =
    ok (record { state = s; events = observed ∷ []; command_results = [] })
note_failure s observed (some failure) = do
  s' ← record_failure s failure
  noted ← failure_event failure
  ok (record { state = s'; events = observed ∷ noted ∷ []; command_results = [] })

-- `_reduce_model`
unfoldable pub reduce_model : CoreState → ModelObservation → Result CoreReduction
unfolding is_unfinished_plan_final_candidate model_failure note_failure
reduce_model s o = do
  guards ← init_loop_guards (record s.facts.loop_guards {
    repeated_no_progress =
        s.facts.loop_guards.repeated_no_progress
        + (if is_unfinished_plan_final_candidate s o then 1 else 0);
  })
  let s1 = record s {
    facts = record s.facts {
      counters = record s.facts.counters {
        model_turns = s.facts.counters.model_turns + 1;
        model_attempts = s.facts.counters.model_attempts + o.attempts;
      };
      loop_guards = guards;
    };
  }
  observed ← event "model_observed" [] []
  failure ← model_failure o
  note_failure s1 observed failure

-- A user's text that is not the goal, while a plan waits for confirmation.
unfoldable pub is_plan_feedback : CoreState → UserInputObservation → Bool
is_plan_feedback s o = elim s.task.plan [
  | none ↦ false
  | some plan ↦ plan_is_proposed plan && not (str_eq o.text s.task.current_goal)
]

-- the blockers behind a user's input
unfoldable pub input_blockers : CoreState → UserInputObservation → Result (List TaskBlocker)
unfolding is_plan_feedback
input_blockers s o =
    let kept = without user_input_required s.task.blockers in
    if is_plan_feedback s o
    then (do
      blocker ← init_blocker (record {
        kind = plan_incomplete;
        reason = "User feedback requires a new canonical plan revision.";
        evidence_refs = [];
        recoverable = true;
      })
      ok (without plan_incomplete kept ++ blocker ∷ []))
    else ok kept

abbrev pub unblocked : TaskStatus → TaskStatus
unblocked TaskStatus.blocked = TaskStatus.active
unblocked status = status

abbrev pub goal_or : Option String → String → String
goal_or none goal = goal
goal_or (some goal') goal = goal'

-- `_reduce_user_input`
unfoldable pub reduce_user_input : CoreState → UserInputObservation → Result CoreReduction
unfolding input_blockers
reduce_user_input s o = do
  blockers ← input_blockers s o
  task ← init_task (record s.task {
    current_goal = goal_or o.current_goal s.task.current_goal;
    status = unblocked s.task.status;
    blockers = blockers;
  })
  s' ← reset_no_progress (record s { task = task })
  received ← event "user_input_received" [] []
  ok (record { state = s'; events = received ∷ []; command_results = [] })

-- `_reduce_cancellation`
unfoldable pub reduce_cancellation : CoreState → CancellationObservation → Result CoreReduction
reduce_cancellation s o = do
  failure ← init_failure (record {
    code = "run.cancelled";
    source = "runtime";
    message = o.reason;
    recoverable = false;
    evidence_refs = o.observation_id ∷ [];
  })
  s' ← record_failure s failure
  observed ← event "cancellation_observed" (("reason", text o.reason) ∷ []) []
  ok (record { state = s'; events = observed ∷ []; command_results = [] })

-- the dispatch of `reduce_observation` on the class of the observation
unfoldable pub reduce_kind : CoreState → CoreObservation → RunMode → Result CoreReduction
reduce_kind s (model o) mode = reduce_model s o
reduce_kind s (tool_batch o) mode = reduce_tools s o mode
reduce_kind s (user_input o) mode = reduce_user_input s o
reduce_kind s (core_command id command) mode = apply_core_command s command mode
reduce_kind s (cancellation o) mode = reduce_cancellation s o

-- `reduce_observation`
unfoldable pub reduce_observation : CoreState → CoreObservation → RunMode → Result CoreReduction
unfolding reduce_kind
reduce_observation s o mode =
    if contains (observation_id o) s.facts.observation_ledger.applied_observation_ids
    then ok (unchanged s)
    else (do
      reduction ← reduce_kind s o mode
      s' ← mark_seen reduction.state (observation_id o)
      ok (record reduction { state = s' }))
