-- ===== src/Reducer/ToolBatch.antt =====
-- core/reducer.py: `_reduce_tools`, the reduction of a batch of tool results.
pub mod Unique
use mathlib.Core.List.{◌++◌}
use codepilot_stable.Base.{
  ℕ, ◌+◌, String, Bool, true, false, ◌&&◌, ◌||◌, not, Option, none, some, List, [], ◌∷◌, map, any,
  all, filter, count, contains, length, ltb, ◌==◌, str_eq, if◌then◌else◌, Result, ok, err, ◌>>=◌,
}
use codepilot_stable.Literals.{
  RunMode, CommandStatus, ToolErrorKind, VerificationFactStatus, tool_unavailable, replan_required,
}
use codepilot_stable.State.{
  CoreState, WorkspaceFacts, VerificationFacts, FailureRecord, init_blocker, init_failures,
  init_loop_guards, no_failures,
}
use codepilot_stable.Commands.{CommandResult}
use codepilot_stable.Tools.{ToolCall, ToolError, ToolResult, is_success}
use codepilot_stable.Events.{CoreDomainEvent, Payload, null, text, number, texts, event}
use codepilot_stable.Observations.{ToolBatchObservation}
use codepilot_stable.Reducer.Facts.{
  CoreReduction, put_blocker, remove_blocker, record_failure, failure_event,
  failure_from_tool_error, sync_replan_blocker, sync_verification_blocker, reduce_loop_guards,
}
use codepilot_stable.Reducer.Workspace.{reduce_workspace, reduce_verification, verification_eq}
use codepilot_stable.Reducer.Commands.{apply_core_commands}

-- the first result of each call; `seen` is `batch_call_ids`
unfoldable pub unique_results : List String → List ToolResult → List ToolResult
unique_results seen [] = []
unique_results seen (result ∷ results) = elim (contains result.tool_call_id seen) [
  | true ↦ unique_results seen results
  | false ↦ result ∷ unique_results (result.tool_call_id ∷ seen) results
]

-- A result that the Core did not put off.
unfoldable pub is_material : ToolResult → Bool
is_material result = elim result.error [
  | none ↦ true
  | some e ↦ not (str_eq e.code "core.tool_deferred")
]

unfoldable pub material_results : List ToolResult → List ToolResult
unfolding unique_results is_material
material_results results = filter is_material (unique_results [] results)

abbrev pub call_ids : List ToolResult → List String
call_ids results = map (λ result. result.tool_call_id) results

-- the counters after a batch: a call that has been seen is not counted again
unfoldable pub count_batch : CoreState → List ToolResult → CoreState
count_batch s material =
    let seen = s.facts.loop_guards.seen_tool_call_ids in
    record s {
      facts = record s.facts {
        counters = record s.facts.counters {
          tool_iterations =
              s.facts.counters.tool_iterations + (if ltb 0 (length material) then 1 else 0);
          tool_calls =
              s.facts.counters.tool_calls
              + count (λ (result : ToolResult). not (contains result.tool_call_id seen)) material;
        };
      };
    }

abbrev pub is_unavailable_error : ToolError → Bool
is_unavailable_error e =
    (elim e.kind [ ToolErrorKind.unavailable ↦ true | _ ↦ false ]) || str_eq e.code "tool_not_found"

-- the blocker for a tool that is not there
unfoldable pub block_tool : CoreState → String → ToolError → FailureRecord → Result CoreState
block_tool s call_id e failure =
    if is_unavailable_error e
    then (do
      blocker ← init_blocker (record {
        kind = tool_unavailable;
        reason = e.message;
        evidence_refs = call_id ∷ [];
        recoverable = failure.recoverable;
      })
      put_blocker s blocker)
    else ok s

-- the body of the loop over the results, for one with an error
unfoldable pub note_error : CoreState → String → ToolError → Result (CoreState × CoreDomainEvent)
unfolding block_tool
note_error s call_id e = do
  failure ← failure_from_tool_error call_id e
  s1 ← record_failure s failure
  noted ← failure_event failure
  s2 ← block_tool s1 call_id e failure
  ok (s2, noted)

-- the loop over the results that records their failures
unfoldable pub note_errors : CoreState → List ToolResult → Result (CoreState × List CoreDomainEvent)
unfolding note_error
note_errors s [] = ok (s, [])
note_errors s (result ∷ results) = elim result.error [
  | none ↦ note_errors s results
  | some e ↦ do
    (s1, noted) ← note_error s result.tool_call_id e
    (s2, events) ← note_errors s1 results
    ok (s2, noted ∷ events)
]

abbrev verification_text : VerificationFactStatus → String
verification_text VerificationFactStatus.none = "none"
verification_text VerificationFactStatus.unknown = "unknown"
verification_text VerificationFactStatus.passed = "passed"
verification_text VerificationFactStatus.failed = "failed"
verification_text VerificationFactStatus.stale = "stale"
verification_text VerificationFactStatus.unavailable = "unavailable"

abbrev revision_payload : Option ℕ → Payload
revision_payload none = null
revision_payload (some n) = number n

-- `if workspace_changed: events.append(...)`
unfoldable pub workspace_events : WorkspaceFacts → Bool → Result (List CoreDomainEvent)
workspace_events w false = ok []
workspace_events w true = do
  changed ←
      event "workspace_changed"
        (("revision", number w.revision) ∷ ("affected_paths", texts w.affected_paths) ∷ [])
        w.evidence_refs
  ok (changed ∷ [])

-- `if verification_changed: events.append(...)`
unfoldable pub verification_events : VerificationFacts → Bool → Result (List CoreDomainEvent)
verification_events v false = ok []
verification_events v true = do
  recorded ←
      event "verification_recorded"
        (("status", text (verification_text v.status))
          ∷ ("revision", revision_payload v.verified_revision)
          ∷ [])
        v.evidence_refs
  ok (recorded ∷ [])

-- `if clean_success: ...`
unfoldable pub clear_failures : CoreState → Bool → Result CoreState
clear_failures s false = ok s
clear_failures s true = do
  s1 ← remove_blocker s tool_unavailable
  s2 ← remove_blocker s1 replan_required
  failures ← init_failures no_failures
  ok (record s2 { facts = record s2.facts { failures = failures } })

abbrev pub is_applied : CommandResult → Bool
is_applied r = elim r.status [ CommandStatus.applied ↦ true | _ ↦ false ]

-- the end of `_reduce_tools`: the loop guards, reset where the batch made progress
unfoldable pub guard_batch : CoreState → List ToolCall → List ToolResult → Bool → Result CoreState
guard_batch s calls material progress = do
  let ids = call_ids material
  guards ←
      reduce_loop_guards s.facts.loop_guards
        (filter (λ (call : ToolCall). contains call.id ids) calls) ids
  guards' ←
      (if progress
        then init_loop_guards (record guards { repeated_no_progress = 0 })
        else ok guards)
  ok (record s { facts = record s.facts { loop_guards = guards' } })

-- `_reduce_tools` behind the selection of the results that count
unfoldable pub reduce_material :
    CoreState → ToolBatchObservation → List ToolResult → RunMode → Result CoreReduction
reduce_material s o material mode = do
  let s1 = count_batch s material
  (workspace, workspace_changed) ← reduce_workspace s1.facts.workspace material
  let s2 = record s1 { facts = record s1.facts { workspace = workspace } }
  events1 ← workspace_events workspace workspace_changed
  verification ←
      reduce_verification s2.facts.verification material workspace.revision workspace_changed
  let s3 = record s2 { facts = record s2.facts { verification = verification } }
  let verification_changed = not (verification_eq verification s.facts.verification)
  events2 ← verification_events verification verification_changed
  s4 ← sync_verification_blocker s3
  (s5, events3) ← note_errors s4 material
  s6 ← sync_replan_blocker s5
  applied ← apply_core_commands s6 o.commands mode
  s7 ←
      clear_failures applied.state (
        ltb 0 (length material) && all (λ (result : ToolResult). is_success result.status) material)
  s8 ←
      guard_batch s7 o.calls material
        (workspace_changed || verification_changed || any is_applied applied.command_results)
  ok (record {
    state = s8;
    events = events1 ++ (events2 ++ (events3 ++ applied.events));
    command_results = applied.command_results;
  })

-- `_reduce_tools`
unfoldable pub reduce_tools : CoreState → ToolBatchObservation → RunMode → Result CoreReduction
unfolding reduce_material material_results
reduce_tools s o mode = reduce_material s o (material_results o.results) mode
