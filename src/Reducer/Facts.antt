-- ===== src/Reducer/Facts.antt =====
-- core/reducer.py: the updates of blockers, failures, loop guards and the ledger that the
-- reductions share.
pub mod Blockers
use Prim.Native.String.{◌++◌}
use codepilot_stable.Base.{
  ℕ, zero, suc, ◌+◌, String, Bool, true, false, ◌||◌, not, Option, none, some, List, [], ◌∷◌, map,
  filter, length, ltb, leb, str_eq, ◌==◌, if◌then◌else◌, Result, ok, err, ◌>>=◌, traverse,
}
use mathlib.Core.List.{◌++◌ as append}
use codepilot_stable.Literals.{
  TaskBlockerKind, tool_unavailable, verification_failed, replan_required, ToolErrorKind,
  VerificationFactStatus,
}
use codepilot_stable.Text.{join}
use codepilot_stable.Text.Prefix.{json_text}
use codepilot_stable.Plan.{PlanState, qualified_failures_for_revision}
use codepilot_stable.State.{
  CoreState, TaskBlocker, FailureRecord, FailureCount, LoopGuardFacts, kind_eq, init_task,
  init_blocker, init_failure, init_failure_count, init_failures, init_loop_guards, init_ledger,
  count_for,
}
use codepilot_stable.Commands.{CommandResult}
use codepilot_stable.Tools.{ToolCall, ToolResult, ToolError}
use codepilot_stable.Events.{CoreDomainEvent, text, flag, event}

pub record CoreReduction : Type 0 where
  pub state : CoreState
  pub events : List CoreDomainEvent
  pub command_results : List CommandResult

abbrev pub unchanged : CoreState → CoreReduction
unchanged s = record { state = s; events = []; command_results = [] }

-- `replace(state, task=replace(state.task, plan=plan))`
unfoldable pub with_plan : CoreState → PlanState → Result CoreState
with_plan s plan = do
  task ← init_task (record s.task { plan = some plan })
  ok (record s { task = task })

-- `replace(state, task=replace(state.task, blockers=blockers))`
unfoldable pub with_blockers : CoreState → List TaskBlocker → Result CoreState
with_blockers s blockers = do
  task ← init_task (record s.task { blockers = blockers })
  ok (record s { task = task })

-- the blockers of another kind
unfoldable pub without : TaskBlockerKind → List TaskBlocker → List TaskBlocker
without kind blockers = filter (λ item. not (kind_eq item.kind kind)) blockers

-- `_put_blocker`
unfoldable pub put_blocker : CoreState → TaskBlocker → Result CoreState
unfolding without with_blockers
put_blocker s blocker =
    with_blockers s (append (without blocker.kind s.task.blockers) (blocker ∷ []))

-- `_remove_blocker`
unfoldable pub remove_blocker : CoreState → TaskBlockerKind → Result CoreState
unfolding without with_blockers
remove_blocker s kind = with_blockers s (without kind s.task.blockers)

-- `_reset_no_progress`
unfoldable pub reset_no_progress : CoreState → Result CoreState
reset_no_progress s = do
  guards ← init_loop_guards (record s.facts.loop_guards { repeated_no_progress = 0 })
  ok (record s { facts = record s.facts { loop_guards = guards } })

-- the ledger with one more id: `_mark_command_seen`, and the end of `reduce_observation`
unfoldable pub mark_seen : CoreState → String → Result CoreState
mark_seen s id = do
  ledger ← init_ledger (record {
    applied_observation_ids = append s.facts.observation_ledger.applied_observation_ids (id ∷ []);
  })
  ok (record s { facts = record s.facts { observation_ledger = ledger } })

-- `counts[code] = counts.get(code, 0) + 1`
unfoldable pub bump : String → List FailureCount → List FailureCount
bump code [] = record { code = code; count = 1 } ∷ []
bump code (item ∷ counts) =
    let rest = bump code counts in
    if str_eq item.code code then record item { count = item.count + 1 } ∷ counts else item ∷ rest

-- `_record_failure`
unfoldable pub record_failure : CoreState → FailureRecord → Result CoreState
unfolding bump
record_failure s failure = do
  counts ← traverse init_failure_count (bump failure.code s.facts.failures.counts)
  failures ← init_failures (record { latest = some failure; counts = counts })
  ok (record s { facts = record s.facts { failures = failures } })

-- `_failure_event`
unfoldable pub failure_event : FailureRecord → Result CoreDomainEvent
failure_event f =
    event "failure_recorded"
      (("code", text f.code) ∷ ("source", text f.source) ∷ ("recoverable", flag f.recoverable) ∷ [])
      f.evidence_refs

-- the kinds of errors from which the model may recover
abbrev pub recoverable_kind : ToolErrorKind → Bool
recoverable_kind ToolErrorKind.validation = true
recoverable_kind ToolErrorKind.unavailable = true
recoverable_kind ToolErrorKind.permission = true
recoverable_kind ToolErrorKind.approval = true
recoverable_kind ToolErrorKind.execution = true
recoverable_kind ToolErrorKind.output_validation = true
recoverable_kind _ = false

-- `_failure_from_tool_result`, for a result with an error
unfoldable pub failure_from_tool_error : String → ToolError → Result FailureRecord
failure_from_tool_error call_id e = init_failure (record {
  code = e.code;
  source = "tools";
  message = e.message;
  recoverable = e.retryable || recoverable_kind e.kind;
  evidence_refs = call_id ∷ [];
})

-- `_sync_replan_blocker`
unfoldable pub sync_replan_blocker : CoreState → Result CoreState
unfolding put_blocker
sync_replan_blocker s = elim s.facts.failures.latest [
  | none ↦ ok s
  | some latest ↦
      if not latest.recoverable
        || ltb (count_for s.facts.failures latest.code) qualified_failures_for_revision
      then ok s
      else do
        blocker ← init_blocker (record {
          kind = replan_required;
          reason = "Repeated failure requires replanning: " ++ latest.code;
          evidence_refs = latest.evidence_refs;
          recoverable = true;
        })
        put_blocker s blocker
]

-- `_sync_verification_blocker`
unfoldable pub sync_verification_blocker : CoreState → Result CoreState
unfolding put_blocker remove_blocker record_failure
sync_verification_blocker s = elim s.facts.verification.status [
  | VerificationFactStatus.failed ↦ do
    failure ← init_failure (record {
      code = "verification.failed";
      source = "verification";
      message = "Verification failed";
      recoverable = true;
      evidence_refs = s.facts.verification.evidence_refs;
    })
    s' ← record_failure s failure
    blocker ← init_blocker (record {
      kind = verification_failed;
      reason = "Verification failed";
      evidence_refs = s.facts.verification.evidence_refs;
      recoverable = true;
    })
    put_blocker s' blocker
  | VerificationFactStatus.passed ↦ remove_blocker s verification_failed
  | VerificationFactStatus.unavailable ↦ remove_blocker s verification_failed
  | _ ↦ ok s
]

-- one call inside the JSON list of `_tool_fingerprint`
abbrev pub call_json : ToolCall → String
call_json call = "[" ++ (json_text call.name ++ (", " ++ (call.arguments ++ "]")))

-- `_tool_fingerprint`
unfoldable pub tool_fingerprint : List ToolCall → String
tool_fingerprint calls = "[" ++ (join ", " (map call_json calls) ++ "]")

-- `fingerprint == current.last_tool_fingerprint`
abbrev pub same_fingerprint : String → Option String → Bool
same_fingerprint fingerprint none = false
same_fingerprint fingerprint (some last) = str_eq fingerprint last

-- `_reduce_loop_guards`: of the results only the call ids are read.
unfoldable pub reduce_loop_guards :
    LoopGuardFacts → List ToolCall → List String → Result LoopGuardFacts
unfolding tool_fingerprint
reduce_loop_guards current [] result_ids =
    init_loop_guards
      (record current { seen_tool_call_ids = append current.seen_tool_call_ids result_ids })
reduce_loop_guards current (call ∷ calls) result_ids =
    let fingerprint = tool_fingerprint (call ∷ calls) in
    init_loop_guards (record {
      last_tool_fingerprint = some fingerprint;
      repeated_tool_calls =
          (if same_fingerprint fingerprint current.last_tool_fingerprint
            then current.repeated_tool_calls + 1
            else 1);
      repeated_no_progress = current.repeated_no_progress;
      seen_tool_call_ids = append current.seen_tool_call_ids result_ids;
    })
