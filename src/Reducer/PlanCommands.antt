-- ===== src/Reducer/PlanCommands.antt =====
-- core/reducer.py: the commands that submit a plan, revise it, report progress and ask to close it.
pub mod Progress
pub mod Submission
unfoldable pub use Submission.*
use Prim.Native.String.{◌++◌}
use codepilot_stable.Base.{
  ℕ, ◌+◌, String, Bool, true, false, ◌&&◌, ◌||◌, not, none, some, List, [], ◌∷◌, all, any, count,
  ltb, leb, if◌then◌else◌, Result, ok, err, ◌>>=◌,
}
use codepilot_stable.Literals.{
  RunMode, PlanOrigin, PlanStatus, PlanRevisionReason, plan_incomplete, replan_required,
}
use codepilot_stable.Text.Decimal.{show}
use codepilot_stable.Plan.{
  PlanState, PlanDefinition, PlanStepDefinition, PlanStepUpdate, PlanStep, is_completed,
  is_in_progress, require_plan_mode_details, init_plan, init_pending_revision, init_close_request,
  qualified_failures_for_revision,
}
use codepilot_stable.State.{CoreState, FailureCount, is_none}
use codepilot_stable.Commands.{
  submit_plan, update_plan_progress, propose_plan_revision, request_plan_close,
}
use codepilot_stable.Events.{text, number}
use codepilot_stable.Reducer.Facts.{CoreReduction, with_plan, remove_blocker}
use codepilot_stable.Reducer.Evidence.{known_evidence, normalize_evidence_refs, keep_known}
use codepilot_stable.Reducer.Steps.{
  new_steps, preserve_matching_steps, find_last, has_id, update_steps, merge_steps, reject, done,
}
use codepilot_stable.Reducer.Replies.{
  applied_plan_command, reject_command, plan_payload, active_plan_problem, on_found,
  plan_is_proposed,
}

-- the end of `_update_plan_progress`, behind the loop
unfoldable pub store_progress :
    CoreState → String → ℕ → List PlanStepUpdate → PlanState → List PlanStep → Result CoreReduction
store_progress s id revision updates plan written =
    let command = update_plan_progress id revision updates in
    if ltb 1 (count is_in_progress (merge_steps plan.steps written))
    then reject_command s command "plan.multiple_in_progress"
    else do
      next_plan ← init_plan (record plan {
        steps = merge_steps plan.steps written;
        revision = plan.revision + 1;
        close_request = none;
      })
      s1 ← with_plan s next_plan
      s2 ← remove_blocker s1 replan_required
      applied_plan_command s2 command "plan_progress_updated"
          (plan_payload plan.plan_id next_plan.revision)

-- An update of a step that the plan does not have.
unfoldable pub has_unknown_step : PlanState → List PlanStepUpdate → Bool
has_unknown_step plan updates =
    any (λ (u : PlanStepUpdate). is_none (find_last (has_id u.step_id) plan.steps)) updates

-- `_update_plan_progress` for the plan that the tests found
unfoldable pub update_progress :
    CoreState → String → ℕ → List PlanStepUpdate → PlanState → Result CoreReduction
unfolding store_progress has_unknown_step
update_progress s id revision updates plan =
    if has_unknown_step plan updates
    then reject_command s (update_plan_progress id revision updates) "plan.unknown_step"
    else elim (update_steps (known_evidence s) plan.steps updates []) [
      | reject reason ↦ reject_command s (update_plan_progress id revision updates) reason
      | done written ↦ store_progress s id revision updates plan written
    ]

-- `_update_plan_progress`
unfoldable pub reduce_update_progress :
    CoreState → String → ℕ → List PlanStepUpdate → RunMode → Result CoreReduction
unfolding update_progress
reduce_update_progress s id revision updates mode =
    on_found s (update_plan_progress id revision updates) (active_plan_problem s revision mode)
      (update_progress s id revision updates)

-- `max((item.count for item in counts), default=0)`
unfoldable pub max_count : List FailureCount → ℕ
max_count [] = 0
max_count (item ∷ counts) =
    let rest = max_count counts in if leb rest item.count then item.count else rest

abbrev is_build_plan : PlanState → Bool
is_build_plan p = elim p.origin [ PlanOrigin.build_mode ↦ true | _ ↦ false ]

abbrev is_repeated_failure : PlanRevisionReason → Bool
is_repeated_failure PlanRevisionReason.repeated_execution_failure = true
is_repeated_failure _ = false

-- `auto_apply`: a plan of the build mode is revised at once after repeated failures
unfoldable pub auto_apply : CoreState → PlanState → PlanRevisionReason → Bool
unfolding max_count
auto_apply s plan reason =
    is_build_plan plan
    && is_repeated_failure reason
    && leb qualified_failures_for_revision (max_count s.facts.failures.counts)

-- the plan with the revision applied, or with it pending
unfoldable pub revised_plan :
    CoreState → PlanState → PlanRevisionReason → PlanDefinition → List PlanStep → Result PlanState
unfolding auto_apply
revised_plan s plan reason definition merged =
    if auto_apply s plan reason
    then init_plan (record plan {
      definition = definition;
      steps = merged;
      revision = plan.revision + 1;
      pending_revision = none;
      close_request = none;
    })
    else do
      pending ← init_pending_revision (record {
        reason = reason;
        definition = definition;
        steps = merged;
        proposed_at_revision = plan.revision;
      })
      init_plan (record plan { pending_revision = some pending; revision = plan.revision + 1 })

-- `_propose_plan_revision` for the plan that the tests found
unfoldable pub propose_revision :
    CoreState
    → String
    → ℕ
    → PlanRevisionReason
    → PlanDefinition
    → List PlanStepDefinition
    → PlanState
    → Result CoreReduction
unfolding revised_plan
propose_revision s id revision reason definition definitions plan =
    let command = propose_plan_revision id revision reason definition definitions in
    if not (is_none plan.pending_revision)
    then reject_command s command "plan.revision_pending"
    else do
      replacement ←
          new_steps (plan.plan_id ++ (":revision:" ++ show (plan.revision + 1))) 1 definitions
      next_plan ←
          revised_plan s plan reason definition (preserve_matching_steps plan.steps replacement)
      s1 ← with_plan s next_plan
      s2 ← remove_blocker s1 replan_required
      applied_plan_command s2 command
          (if auto_apply s plan reason then "plan_revision_applied" else "plan_revision_proposed")
          (plan_payload plan.plan_id next_plan.revision)

-- `_propose_plan_revision`
unfoldable pub reduce_propose_revision :
    CoreState
    → String
    → ℕ
    → PlanRevisionReason
    → PlanDefinition
    → List PlanStepDefinition
    → RunMode
    → Result CoreReduction
unfolding propose_revision
reduce_propose_revision s id revision reason definition definitions mode =
    on_found s (propose_plan_revision id revision reason definition definitions)
      (active_plan_problem s revision mode)
      (propose_revision s id revision reason definition definitions)

-- `_request_plan_close` for the plan that the tests found
unfoldable pub request_close :
    CoreState → String → ℕ → String → List String → PlanState → Result CoreReduction
request_close s id revision summary refs plan =
    let command = request_plan_close id revision summary refs in
    if not (all is_completed plan.steps)
    then reject_command s command "plan.steps_incomplete"
    else do
      request ← init_close_request (record {
        summary = summary;
        evidence_refs = keep_known (known_evidence s) (normalize_evidence_refs refs);
        requested_at_revision = plan.revision;
      })
      next_plan ←
          init_plan (record plan { close_request = some request; revision = plan.revision + 1 })
      s1 ← with_plan s next_plan
      applied_plan_command s1 command "plan_close_requested"
          (plan_payload plan.plan_id next_plan.revision)

-- `_request_plan_close`
unfoldable pub reduce_request_close :
    CoreState → String → ℕ → String → List String → RunMode → Result CoreReduction
unfolding request_close
reduce_request_close s id revision summary refs mode =
    on_found s (request_plan_close id revision summary refs) (active_plan_problem s revision mode)
      (request_close s id revision summary refs)
