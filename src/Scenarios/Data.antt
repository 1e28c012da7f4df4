-- ===== src/Scenarios/Data.antt =====
-- A task with a plan of one step, the observations of a run over it, and their outcomes.
use codepilot_stable.Base.{
  ℕ, String, Option, none, some, List, [], ◌∷◌, false, true, Result, ok, err,
}
use codepilot_stable.Literals.{
  PlanOrigin, PlanStatus, PlanStepStatus, TaskStatus, VerificationFactStatus,
  ModelObservationStatus, ModelPurpose, ToolStatus,
}
use codepilot_stable.Tools.{Value, ToolResult, text_block}
use codepilot_stable.Plan.{PlanDefinition, PlanStepDefinition, PlanStep, PlanState}
use codepilot_stable.State.{CoreState, RunFacts}
use codepilot_stable.Commands.{CoreCommand, approve_plan, abandon_plan}
use codepilot_stable.Observations.{CoreObservation, model, user_input, core_command}
use codepilot_stable.Reducer.Facts.{CoreReduction, unchanged}

abbrev pub goal_definition : PlanDefinition
goal_definition = record {
  summary = "Fix the parser";
  completion_criteria = "tests pass" ∷ [];
  task_understanding = "";
  current_implementation = "";
  target_design = "";
  impact_scope = "";
  risks_and_open_questions = [];
  verification_plan = "";
  explanation = "";
}

abbrev pub read_file : PlanStepDefinition
read_file = record { step = "Read"; details = "Read the parser"; verification = "Notes taken" }

abbrev pub read_step : PlanStep
read_step = record {
  step_id = "plan:a:step:1";
  step = "Read";
  details = "Read the parser";
  verification = "Notes taken";
  status = PlanStepStatus.pending;
  completion_note = "";
  evidence_refs = [];
}

abbrev pub small_plan : PlanStatus → PlanState
small_plan status = record {
  plan_id = "plan:a";
  origin = PlanOrigin.plan_mode;
  status = status;
  revision = 1;
  definition = goal_definition;
  steps = read_step ∷ [];
  pending_revision = none;
  close_request = none;
}

abbrev pub no_facts : RunFacts
no_facts = record {
  counters = record {
    model_turns = 0;
    model_attempts = 0;
    tool_iterations = 0;
    tool_calls = 0;
    total_recoveries = 0;
  };
  workspace = record { revision = 0; changed = false; affected_paths = []; evidence_refs = [] };
  verification = record {
    status = VerificationFactStatus.none;
    verified_revision = none;
    attempted_checks = [];
    evidence_refs = [];
    unavailable_reason = none;
  };
  failures = record { latest = none; counts = [] };
  loop_guards = record {
    last_tool_fingerprint = none;
    repeated_tool_calls = 0;
    repeated_no_progress = 0;
    seen_tool_call_ids = [];
  };
  observation_ledger = record { applied_observation_ids = [] };
}

abbrev pub with_status : PlanStatus → CoreState
with_status status = record {
  task = record {
    original_request = "Fix it";
    current_goal = "Fix it";
    status = TaskStatus.active;
    plan = some (small_plan status);
    blockers = [];
  };
  facts = no_facts;
}

-- the state that waits for the user to confirm the plan
abbrev pub waiting : CoreState
waiting = with_status PlanStatus.proposed

-- The reduction of a run that does not raise. Its `unfolding` line names the code, for the tests.
unfoldable pub reduced_or : CoreState → Result CoreReduction → CoreReduction
unfolding codepilot_stable.Base.filter codepilot_stable.Base.count codepilot_stable.Base.any
    codepilot_stable.Base.all codepilot_stable.Base.contains codepilot_stable.Base.from_keys
    codepilot_stable.Text.is_space codepilot_stable.Text.is_empty codepilot_stable.Text.lstrip
    codepilot_stable.Text.rstrip codepilot_stable.Text.strip codepilot_stable.Text.push_word
    codepilot_stable.Text.span_words codepilot_stable.Text.split codepilot_stable.Text.join
    codepilot_stable.Text.collapse codepilot_stable.Text.Decimal.digit
    codepilot_stable.Text.Decimal.show_fuel codepilot_stable.Text.Decimal.show
    codepilot_stable.Text.Prefix.drop_prefix codepilot_stable.Text.Prefix.starts_with
    codepilot_stable.Text.Prefix.remove_prefix codepilot_stable.Text.Prefix.json_char
    codepilot_stable.Text.Prefix.json_chars codepilot_stable.Text.Prefix.json_text
    codepilot_stable.Text.Prefix.lower_code codepilot_stable.Text.Prefix.drop_lower_prefix
    codepilot_stable.Text.Prefix.lower_is codepilot_stable.Plan.optional_text
    codepilot_stable.Plan.required_text codepilot_stable.Plan.text_tuple
    codepilot_stable.Plan.init_definition codepilot_stable.Plan.require_plan_mode_details
    codepilot_stable.Plan.init_step_definition codepilot_stable.Plan.init_step
    codepilot_stable.Plan.init_step_update codepilot_stable.Plan.validate_steps
    codepilot_stable.Plan.init_pending_revision codepilot_stable.Plan.init_close_request
    codepilot_stable.Plan.init_plan codepilot_stable.State.optional_text
    codepilot_stable.State.required_core_text codepilot_stable.State.text_tuple
    codepilot_stable.State.init_blocker codepilot_stable.State.init_task
    codepilot_stable.State.init_workspace codepilot_stable.State.init_verification
    codepilot_stable.State.init_failure codepilot_stable.State.init_failure_count
    codepilot_stable.State.init_failures codepilot_stable.State.count_in
    codepilot_stable.State.init_loop_guards codepilot_stable.State.init_ledger
    codepilot_stable.State.new_state codepilot_stable.State.assess_plan
    codepilot_stable.State.assess_active codepilot_stable.State.assess_core_state
    codepilot_stable.Commands.required_text codepilot_stable.Commands.text_tuple
    codepilot_stable.Commands.step_definitions codepilot_stable.Commands.check_updates
    codepilot_stable.Commands.init_command codepilot_stable.Commands.command_result
    codepilot_stable.Tools.truthy codepilot_stable.Tools.str codepilot_stable.Tools.str_or
    codepilot_stable.Tools.equals_number codepilot_stable.Tools.changes_workspace
    codepilot_stable.Tools.workspace_effect_summary codepilot_stable.Events.required_text
    codepilot_stable.Events.init_event codepilot_stable.Events.event
    codepilot_stable.Observations.required_text codepilot_stable.Observations.init_model
    codepilot_stable.Observations.init_tool_batch codepilot_stable.Observations.init_user_input
    codepilot_stable.Observations.init_cancellation codepilot_stable.Observations.is_text
    codepilot_stable.Contracts.required_core_text codepilot_stable.Contracts.reference_tuple
    codepilot_stable.Contracts.init_reason codepilot_stable.Contracts.init_directive
    codepilot_stable.Contracts.init_wait codepilot_stable.Contracts.new_execute_tools
    codepilot_stable.Reducer.Facts.with_plan codepilot_stable.Reducer.Facts.with_blockers
    codepilot_stable.Reducer.Facts.without codepilot_stable.Reducer.Facts.put_blocker
    codepilot_stable.Reducer.Facts.remove_blocker codepilot_stable.Reducer.Facts.reset_no_progress
    codepilot_stable.Reducer.Facts.mark_seen codepilot_stable.Reducer.Facts.bump
    codepilot_stable.Reducer.Facts.record_failure codepilot_stable.Reducer.Facts.failure_event
    codepilot_stable.Reducer.Facts.failure_from_tool_error
    codepilot_stable.Reducer.Facts.sync_replan_blocker
    codepilot_stable.Reducer.Facts.sync_verification_blocker
    codepilot_stable.Reducer.Facts.tool_fingerprint
    codepilot_stable.Reducer.Facts.reduce_loop_guards codepilot_stable.Reducer.Evidence.cut
    codepilot_stable.Reducer.Evidence.path_parts
    codepilot_stable.Reducer.Evidence.normalize_evidence_ref
    codepilot_stable.Reducer.Evidence.normalize_evidence_refs
    codepilot_stable.Reducer.Evidence.workspace_evidence_ref
    codepilot_stable.Reducer.Evidence.known_evidence codepilot_stable.Reducer.Evidence.keep_known
    codepilot_stable.Reducer.Steps.new_step codepilot_stable.Reducer.Steps.new_steps
    codepilot_stable.Reducer.Steps.find_last codepilot_stable.Reducer.Steps.preserve_matching_steps
    codepilot_stable.Reducer.Steps.update_step codepilot_stable.Reducer.Steps.update_steps
    codepilot_stable.Reducer.Steps.find_first codepilot_stable.Reducer.Steps.merge_steps
    codepilot_stable.Reducer.Replies.applied_plan_command
    codepilot_stable.Reducer.Replies.reject_command
    codepilot_stable.Reducer.Replies.plan_revision_problem
    codepilot_stable.Reducer.Replies.active_plan_problem
    codepilot_stable.Reducer.PlanCommands.submit_first
    codepilot_stable.Reducer.PlanCommands.submit_again
    codepilot_stable.Reducer.PlanCommands.submit_allowed
    codepilot_stable.Reducer.PlanCommands.reduce_submit_plan
    codepilot_stable.Reducer.PlanCommands.store_progress
    codepilot_stable.Reducer.PlanCommands.has_unknown_step
    codepilot_stable.Reducer.PlanCommands.update_progress
    codepilot_stable.Reducer.PlanCommands.reduce_update_progress
    codepilot_stable.Reducer.PlanCommands.max_count codepilot_stable.Reducer.PlanCommands.auto_apply
    codepilot_stable.Reducer.PlanCommands.revised_plan
    codepilot_stable.Reducer.PlanCommands.propose_revision
    codepilot_stable.Reducer.PlanCommands.reduce_propose_revision
    codepilot_stable.Reducer.PlanCommands.request_close
    codepilot_stable.Reducer.PlanCommands.reduce_request_close
    codepilot_stable.Reducer.Approvals.approve codepilot_stable.Reducer.Approvals.reduce_approve
    codepilot_stable.Reducer.Approvals.decline codepilot_stable.Reducer.Approvals.reduce_reject
    codepilot_stable.Reducer.Approvals.approve_revision
    codepilot_stable.Reducer.Approvals.reduce_approve_revision
    codepilot_stable.Reducer.Approvals.decline_revision
    codepilot_stable.Reducer.Approvals.reduce_reject_revision
    codepilot_stable.Reducer.Approvals.abandon codepilot_stable.Reducer.Approvals.reduce_abandon
    codepilot_stable.Reducer.Approvals.reduce_unavailable
    codepilot_stable.Reducer.Commands.reduce_command
    codepilot_stable.Reducer.Commands.apply_core_command
    codepilot_stable.Reducer.Commands.apply_core_commands
    codepilot_stable.Reducer.Workspace.workspace_path codepilot_stable.Reducer.Workspace.collect
    codepilot_stable.Reducer.Workspace.reduce_workspace
    codepilot_stable.Reducer.Workspace.age_verification
    codepilot_stable.Reducer.Workspace.reported_status
    codepilot_stable.Reducer.Workspace.dated_status
    codepilot_stable.Reducer.Workspace.checked_revision
    codepilot_stable.Reducer.Workspace.report_facts
    codepilot_stable.Reducer.Workspace.reduce_reports
    codepilot_stable.Reducer.Workspace.reduce_verification
    codepilot_stable.Reducer.Workspace.texts_eq codepilot_stable.Reducer.Workspace.verification_eq
    codepilot_stable.Reducer.ToolBatch.unique_results codepilot_stable.Reducer.ToolBatch.is_material
    codepilot_stable.Reducer.ToolBatch.material_results
    codepilot_stable.Reducer.ToolBatch.count_batch codepilot_stable.Reducer.ToolBatch.block_tool
    codepilot_stable.Reducer.ToolBatch.note_error codepilot_stable.Reducer.ToolBatch.note_errors
    codepilot_stable.Reducer.ToolBatch.workspace_events
    codepilot_stable.Reducer.ToolBatch.verification_events
    codepilot_stable.Reducer.ToolBatch.clear_failures codepilot_stable.Reducer.ToolBatch.guard_batch
    codepilot_stable.Reducer.ToolBatch.reduce_material
    codepilot_stable.Reducer.ToolBatch.reduce_tools
    codepilot_stable.Reducer.Observe.model_message_is_empty
    codepilot_stable.Reducer.Observe.is_final_message
    codepilot_stable.Reducer.Observe.is_unfinished_plan_final_candidate
    codepilot_stable.Reducer.Observe.model_failure codepilot_stable.Reducer.Observe.note_failure
    codepilot_stable.Reducer.Observe.reduce_model codepilot_stable.Reducer.Observe.is_plan_feedback
    codepilot_stable.Reducer.Observe.input_blockers
    codepilot_stable.Reducer.Observe.reduce_user_input
    codepilot_stable.Reducer.Observe.reduce_cancellation
    codepilot_stable.Reducer.Observe.reduce_kind codepilot_stable.Reducer.Observe.reduce_observation
    codepilot_stable.Reducer.Decision.settle_plan codepilot_stable.Reducer.Decision.apply_terminate
    codepilot_stable.Reducer.Decision.apply_recovery
    codepilot_stable.Reducer.Decision.apply_decision codepilot_stable.Policy.Tests.calls_of
    codepilot_stable.Policy.Tests.tool_calls codepilot_stable.Policy.Tests.observed_calls
    codepilot_stable.Policy.Tests.is_final_model codepilot_stable.Policy.Tests.is_final_candidate
    codepilot_stable.Policy.Tests.is_cancellation codepilot_stable.Policy.Tests.is_bad_result
    codepilot_stable.Policy.Tests.observation_needs_recovery
    codepilot_stable.Policy.Tests.needs_recovery codepilot_stable.Policy.Tests.ask_model
    codepilot_stable.Policy.Tests.stop codepilot_stable.Policy.Tests.wait_for
    codepilot_stable.Policy.Tests.request_id_of codepilot_stable.Policy.Tests.suspended
    codepilot_stable.Policy.Tests.external_wait_in codepilot_stable.Policy.Tests.external_wait
    codepilot_stable.Policy.ended codepilot_stable.Policy.fatal codepilot_stable.Policy.cancelled
    codepilot_stable.Policy.read_violated codepilot_stable.Policy.budget_reason
    codepilot_stable.Policy.budget_wait codepilot_stable.Policy.requested_tools
    codepilot_stable.Policy.is_feedback codepilot_stable.Policy.confirm_plan
    codepilot_stable.Policy.confirm_revision codepilot_stable.Policy.recover
    codepilot_stable.Policy.recovery codepilot_stable.Policy.replan
    codepilot_stable.Policy.close_plan codepilot_stable.Policy.reconcile
    codepilot_stable.Policy.active_plan codepilot_stable.Policy.verify
    codepilot_stable.Policy.finish codepilot_stable.Policy.decide_open
    codepilot_stable.Policy.decide_plan codepilot_stable.Policy.decide
    codepilot_stable.Base.traverse
reduced_or s (ok reduction) = reduction
reduced_or s (err error) = unchanged s

abbrev pub approval : CoreCommand
approval = approve_plan "c1" 1

abbrev pub approval_seen : CoreObservation
approval_seen = core_command "o1" approval

abbrev pub greeting : CoreObservation
greeting = user_input (record { observation_id = "o2"; text = "hello"; current_goal = none })

-- the task without a plan
abbrev pub unplanned : CoreState
unplanned = record waiting { task = record waiting.task { plan = none } }

-- a final answer of the model
abbrev pub answer : CoreObservation
answer = model (record {
  observation_id = "o3";
  message = some (text_block "All done" ∷ []);
  status = ModelObservationStatus.completed;
  error = none;
  purpose = ModelPurpose.reasoning;
  attempts = 1;
})

-- a call that wrote a file, and one that ran the tests and names the new revision
abbrev pub wrote : ToolResult
wrote = record {
  tool_call_id = "t1";
  tool_name = "write";
  status = ToolStatus.success;
  error = none;
  effects =
      record {
        kind = "filesystem_write";
        status = "completed";
        certainty = "observed";
        uri = "workspace:///a.py";
      }
      ∷ [];
  verification = none;
  approval = none;
  interaction = none;
}

abbrev pub tested : ToolResult
tested = record wrote {
  tool_call_id = "t2";
  effects = [];
  verification = some (record {
    status = Value.text "passed";
    verified_revision = Value.number 1;
    command = Value.text "pytest";
  });
}
