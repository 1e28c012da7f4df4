-- ===== src/Driver/Boundaries.antt =====
-- core/driver.py: the journals, the boundaries and the ends of a run.
pub mod Handed
pub mod Ends
use Prim.Native.String.{◌++◌}
use codepilot_stable.Base.{
  ℕ, suc, String, Bool, true, false, Option, none, some, List, [], ◌∷◌, ◌++◌ as append,
  if◌then◌else◌, Result, ok, err, ◌>>=◌, ◌>>◌, guard, value_error, boundary_commit_error,
}
use codepilot_stable.Literals.{RunMode, TerminationStatus, CoreWaitKind}
use codepilot_stable.Text.Decimal.{show}
use codepilot_stable.Tools.{ToolCall, ToolResult}
use codepilot_stable.State.{CoreState}
use codepilot_stable.Events.{CoreDomainEvent}
use codepilot_stable.Contracts.{
  CoreLimits, CoreWait, CoreDecision, call_model, execute_tools, wait, terminate,
}
use codepilot_stable.Observations.{
  CoreObservation, tool_batch, cancellation, init_tool_batch, init_cancellation,
}
use codepilot_stable.Reducer.Observe.{reduce_observation}
use codepilot_stable.Reducer.Decision.{apply_decision}
use codepilot_stable.Policy.{decide}
use codepilot_stable.Policy.Tests.{PolicyContext, stop}
use codepilot_stable.Driver.Types.{
  Message, MessageJournal, CoreBoundaryKind, CoreBoundary, DriverState,
}
use codepilot_stable.Driver.Transcript.{unsettled_tool_calls}
use codepilot_stable.Driver.ToolStep.{interrupted_tool_results, project_final_tool_messages}

-- `_MessageJournal.extend`
unfoldable pub extend : List Message → MessageJournal → MessageJournal
extend messages journal = record {
  messages = append journal.messages messages;
  added = append journal.added messages;
  pending = append journal.pending messages;
}

-- `_MessageJournal.mark_committed`
abbrev pub mark_committed : MessageJournal → MessageJournal
mark_committed journal = record journal { pending = [] }

-- `_DriverState.observation_id`, after the sequence has gone up
unfoldable pub observation_id : String → ℕ → String
unfolding show
observation_id kind sequence = "core:" ++ kind ++ ":" ++ show sequence

-- The check of `CoreBoundary.__post_init__` on a wait
abbrev pub wait_fits : CoreBoundaryKind → Option CoreWait → Bool
wait_fits CoreBoundaryKind.waiting w = elim w [ some w' ↦ true | none ↦ false ]
wait_fits _ w = elim w [ some w' ↦ false | none ↦ true ]

-- `_reduce`
unfoldable pub reduce : RunMode → CoreObservation → DriverState → Result DriverState
reduce mode observation driver = do
  reduction ← reduce_observation driver.core observation mode
  ok (record driver {
    core = reduction.state;
    observation = observation;
    events = append driver.events reduction.events;
  })

-- `apply_decision` and what the driver does with its reduction
unfoldable pub apply : CoreDecision → DriverState → Result DriverState
apply decision driver = do
  reduction ← apply_decision driver.core decision
  ok (record driver { core = reduction.state; events = append driver.events reduction.events })

-- `decision.wait.kind not in {"tool_approval", "user_input"}`
abbrev pub ends_turn : CoreWaitKind → Bool
ends_turn CoreWaitKind.tool_approval = false
ends_turn CoreWaitKind.user_input = false
ends_turn _ = true

-- `isinstance(decision, Terminate)`, or a wait for neither an approval nor an answer
abbrev pub must_settle : CoreDecision → Bool
must_settle (call_model purpose directive reason) = false
must_settle (execute_tools calls reason) = false
must_settle (wait w) = ends_turn w.kind
must_settle (terminate status code message refs) = true

-- the code of the reason that a wait or an end gives
abbrev pub reason_code : CoreDecision → String
reason_code (wait w) = w.reason.code
reason_code (terminate status code message refs) = code
reason_code (call_model purpose directive reason) = reason.code
reason_code (execute_tools calls reason) = reason.code

-- The port of the boundaries takes a boundary or fails, by what it has taken so far.
module _ (takes : List CoreBoundary → CoreBoundary → Bool) where
  -- `_commit_boundary`
  unfoldable pub commit_boundary :
      CoreBoundaryKind → Option CoreWait → DriverState → Result DriverState
  commit_boundary kind w driver = do
    let boundary : CoreBoundary = record {
      kind = kind;
      state = driver.core;
      new_messages = driver.messages.pending;
      domain_events = driver.events;
      wait = w;
    }
    guard (wait_fits kind w) value_error
    guard (takes driver.committed boundary) boundary_commit_error
    ok (record driver {
      messages = mark_committed driver.messages;
      events = [];
      committed = append driver.committed (boundary ∷ []);
    })

  -- `_settle_unexecuted_calls`
  unfoldable pub settle_unexecuted_calls :
      RunMode → List ToolCall → String → DriverState → Result DriverState
  unfolding observation_id interrupted_tool_results project_final_tool_messages reduce extend
      commit_boundary
  settle_unexecuted_calls mode calls reason driver = do
    results ←
        interrupted_tool_results calls "core.tool_not_executed"
          ("Core did not execute this Tool call before " ++ reason ++ ".")
    let sequence = suc driver.sequence
    observation ← init_tool_batch (record {
      observation_id = observation_id "settlement" sequence;
      calls = calls;
      results = results;
      commands = [];
    })
    reduced ← reduce mode (tool_batch observation) (record driver { sequence = sequence })
    commit_boundary CoreBoundaryKind.after_tools none (record reduced {
      messages = extend (project_final_tool_messages results) reduced.messages;
    })

  -- the calls that have no result are settled, where that is asked for
  unfoldable pub settle_open :
      RunMode → Bool → String → List ToolCall → DriverState → Result DriverState
  unfolding settle_unexecuted_calls
  settle_open mode asked reason [] driver = ok driver
  settle_open mode asked reason (call ∷ calls) driver =
      if asked then settle_unexecuted_calls mode (call ∷ calls) reason driver else ok driver

  -- the first lines of the loop: the policy decides, what it leaves open is settled, and its
  -- decision is applied
  unfoldable pub decide_next : PolicyContext → DriverState → Result (DriverState × CoreDecision)
  unfolding settle_open apply unsettled_tool_calls
  decide_next context driver = do
    decision ← decide driver.core driver.observation context
    settled ←
        settle_open context.mode (must_settle decision) (reason_code decision)
          (unsettled_tool_calls driver.messages.messages) driver
    applied ← apply decision settled
    ok (applied, decision)

  -- the last two branches of the loop; the first two go on with the ports
  unfoldable pub end_run : CoreDecision → DriverState → Result DriverState
  unfolding commit_boundary
  end_run (wait w) driver = commit_boundary CoreBoundaryKind.waiting (some w) driver
  end_run (terminate status code message refs) driver =
      commit_boundary CoreBoundaryKind.before_terminal none driver
  end_run (call_model purpose directive reason) driver = ok driver
  end_run (execute_tools calls reason) driver = ok driver

  -- `if driver.messages.pending: ... else: ...` of `_terminate_interrupted_execution`
  unfoldable pub close_pending :
      RunMode → String → CoreBoundaryKind → DriverState → Result DriverState
  unfolding commit_boundary settle_open unsettled_tool_calls
  close_pending mode reason_code boundary driver = elim driver.messages.pending [
    | message ∷ messages ↦ commit_boundary boundary none driver
    | [] ↦ settle_open mode true reason_code (unsettled_tool_calls driver.messages.messages) driver
  ]

  -- `if status == "cancelled": ...`
  unfoldable pub note_cancelled :
      RunMode → TerminationStatus → String → DriverState → Result DriverState
  unfolding reduce observation_id
  note_cancelled mode TerminationStatus.cancelled message driver = do
    let sequence = suc driver.sequence
    observation ←
        init_cancellation
          (record { observation_id = observation_id "cancelled" sequence; reason = message })
    reduce mode (cancellation observation) (record driver { sequence = sequence })
  note_cancelled mode TerminationStatus.failed message driver = ok driver
  note_cancelled mode TerminationStatus.completed message driver = ok driver

  -- `_terminate_interrupted_execution`
  unfoldable pub terminate_interrupted :
      RunMode
      → TerminationStatus
      → String
      → String
      → CoreBoundaryKind
      → DriverState
      → Result DriverState
  unfolding close_pending note_cancelled apply commit_boundary
  terminate_interrupted mode status reason_code message boundary driver = do
    closed ← close_pending mode reason_code boundary driver
    noted ← note_cancelled mode status message closed
    decision ← stop status reason_code message []
    applied ← apply decision noted
    commit_boundary CoreBoundaryKind.before_terminal none applied
