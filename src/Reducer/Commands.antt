-- ===== src/Reducer/Commands.antt =====
-- core/reducer.py: `_reduce_command` and `apply_core_command`. Of the context only `mode` is read.
use codepilot_stable.Base.{contains, List, [], ◌∷◌, if◌then◌else◌, Result, ok, ◌>>=◌}
use mathlib.Core.List.{◌++◌}
use codepilot_stable.Literals.{RunMode}
use codepilot_stable.State.{CoreState}
use codepilot_stable.Commands.{
  CoreCommand, command_id, submit_plan, update_plan_progress, propose_plan_revision,
  request_plan_close, approve_plan, reject_plan, approve_plan_revision, reject_plan_revision,
  abandon_plan, report_verification_unavailable,
}
use codepilot_stable.Reducer.Facts.{CoreReduction, unchanged, mark_seen}
use codepilot_stable.Reducer.PlanCommands.{
  reduce_submit_plan, reduce_update_progress, reduce_propose_revision, reduce_request_close,
}
use codepilot_stable.Reducer.Approvals.{
  reduce_approve, reduce_reject, reduce_approve_revision, reduce_reject_revision, reduce_abandon,
  reduce_unavailable,
}

-- `_reduce_command`
unfoldable pub reduce_command : CoreState → CoreCommand → RunMode → Result CoreReduction
reduce_command s (submit_plan id definition steps) mode =
    reduce_submit_plan s id definition steps mode
reduce_command s (update_plan_progress id revision updates) mode =
    reduce_update_progress s id revision updates mode
reduce_command s (propose_plan_revision id revision reason definition steps) mode =
    reduce_propose_revision s id revision reason definition steps mode
reduce_command s (request_plan_close id revision summary refs) mode =
    reduce_request_close s id revision summary refs mode
reduce_command s (approve_plan id revision) mode = reduce_approve s id revision
reduce_command s (reject_plan id revision reason) mode = reduce_reject s id revision reason
reduce_command s (approve_plan_revision id revision) mode = reduce_approve_revision s id revision
reduce_command s (reject_plan_revision id revision reason) mode =
    reduce_reject_revision s id revision reason
reduce_command s (abandon_plan id revision reason) mode = reduce_abandon s id revision reason
reduce_command s (report_verification_unavailable id reason checks refs) mode =
    reduce_unavailable s id reason checks refs

-- `apply_core_command`
unfoldable pub apply_core_command : CoreState → CoreCommand → RunMode → Result CoreReduction
apply_core_command s command mode =
    if contains (command_id command) s.facts.observation_ledger.applied_observation_ids
    then ok (unchanged s)
    else do
      reduction ← reduce_command s command mode
      s' ← mark_seen reduction.state (command_id command)
      ok (record reduction { state = s' })

-- the loop of `_reduce_tools` over the commands of a batch
unfoldable pub apply_core_commands : CoreState → List CoreCommand → RunMode → Result CoreReduction
unfolding apply_core_command
apply_core_commands s [] mode = ok (unchanged s)
apply_core_commands s (command ∷ commands) mode = do
  first ← apply_core_command s command mode
  rest ← apply_core_commands first.state commands mode
  ok (record {
    state = rest.state;
    events = first.events ++ rest.events;
    command_results = first.command_results ++ rest.command_results;
  })
