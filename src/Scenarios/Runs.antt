-- ===== src/Scenarios/Runs.antt =====
-- A run that is cancelled while a call of its model is open.
use codepilot_stable.Base.{
  String, Bool, key_error, ◌≡◌, refl, List, [], ◌∷◌, none, some, true, false, Result, ok, err, map,
  All, Holds, front, behind, contains, ◌⊎◌, ◌≢◌,
}
use codepilot_stable.Literals.{RunMode, TaskStatus, TerminationStatus}
use codepilot_stable.State.{CoreState}
use codepilot_stable.Tools.{ToolCall, ToolResult, call_block}
use codepilot_stable.Contracts.{CoreDecision, terminate, default_limits}
use codepilot_stable.Policy.Tests.{PolicyContext}
use codepilot_stable.Driver.Types.{
  Message, assistant_message, user_message, CoreBoundary, CoreBoundaryKind, DriverState,
}
use codepilot_stable.Driver.Transcript.{unsettled_tool_calls}
use codepilot_stable.Driver.Transcript.Settled.{AreTrim}
use codepilot_stable.Driver.Batch.{complete_results}
use codepilot_stable.Driver.Batch.Closed.{IsNamed, incomplete_result}
use codepilot_stable.Driver.Batch.Complete.{IsBatch, complete_results-IsBatch}
use codepilot_stable.Driver.Boundaries.{decide_next, end_run, terminate_interrupted}
use codepilot_stable.Driver.Boundaries.Handed.{IsHandedOver, IsClosed}
use codepilot_stable.Driver.Boundaries.Ends.{decide_next-IsClosed, terminate_interrupted-IsClosed}
use codepilot_stable.Scenarios.Data.{unplanned, greeting, reduced_or}

abbrev read_call : ToolCall
read_call = record { id = "t1"; name = "read"; arguments = "{}" }

abbrev list_call : ToolCall
list_call = record { id = "t2"; name = "list"; arguments = "{}" }

-- a port that takes each boundary
abbrev takes : List CoreBoundary → CoreBoundary → Bool
takes earlier boundary = true

abbrev request : List Message
request = user_message "Fix it" ∷ []

abbrev cancelled_task : CoreState
cancelled_task = record unplanned { task = record unplanned.task { status = TaskStatus.abandoned } }

abbrev asked : DriverState
asked = record {
  core = cancelled_task;
  observation = greeting;
  messages = record {
    messages = user_message "Fix it" ∷ assistant_message (call_block read_call ∷ []) ∷ [];
    added = assistant_message (call_block read_call ∷ []) ∷ [];
    pending = [];
  };
  events = [];
  sequence = 3;
  committed =
      record {
        kind = CoreBoundaryKind.after_model;
        state = cancelled_task;
        new_messages = assistant_message (call_block read_call ∷ []) ∷ [];
        domain_events = [];
        wait = none;
      }
      ∷ [];
}

-- The driver of a run that does not raise. Its `unfolding` line names the code, for the tests.
unfoldable driver_or : DriverState → Result DriverState → DriverState
unfolding reduced_or codepilot_stable.Base.Sorting.sort_by codepilot_stable.Base.Sorting.insert_by
    codepilot_stable.Base.dict_get codepilot_stable.Base.dict_set
    codepilot_stable.Driver.Transcript.put_calls codepilot_stable.Driver.Transcript.requested
    codepilot_stable.Driver.Transcript.settled_ids codepilot_stable.Driver.Transcript.is_open
    codepilot_stable.Driver.Transcript.unsettled_tool_calls codepilot_stable.Tools.require_text
    codepilot_stable.Tools.new_tool_error codepilot_stable.Driver.ToolStep.own_result
    codepilot_stable.Driver.ToolStep.interrupted_tool_results
    codepilot_stable.Driver.ToolStep.project_final_tool_messages
    codepilot_stable.Driver.Boundaries.extend codepilot_stable.Driver.Boundaries.observation_id
    codepilot_stable.Driver.Boundaries.reduce codepilot_stable.Driver.Boundaries.apply
    codepilot_stable.Driver.Boundaries.commit_boundary
    codepilot_stable.Driver.Boundaries.settle_unexecuted_calls
    codepilot_stable.Driver.Boundaries.settle_open codepilot_stable.Driver.Boundaries.decide_next
    codepilot_stable.Driver.Boundaries.end_run codepilot_stable.Driver.Boundaries.close_pending
    codepilot_stable.Driver.Boundaries.note_cancelled
    codepilot_stable.Driver.Boundaries.terminate_interrupted
    codepilot_stable.Driver.Boundaries.Handed.IsHandedOver codepilot_stable.Driver.Batch.by_call_id
    codepilot_stable.Driver.Batch.put_results codepilot_stable.Driver.Batch.result_of
    codepilot_stable.Driver.Batch.complete_results
driver_or driver (ok driver') = driver'
driver_or driver (err error) = driver

abbrev at_work : PolicyContext
at_work = record { mode = RunMode.build; limits = default_limits }

abbrev settled_or : DriverState → Result (DriverState × CoreDecision) → DriverState
settled_or driver (ok (driver', decision)) = driver'
settled_or driver (err error) = driver

abbrev settled : DriverState
unfolding driver_or
settled = settled_or asked (decide_next takes at_work asked)

abbrev closed : DriverState
unfolding driver_or settled
closed =
    driver_or settled
      (end_run takes (terminate TerminationStatus.cancelled "run.cancelled" "" []) settled)

asked-IsHandedOver : IsHandedOver request asked
unfolding driver_or
asked-IsHandedOver = (refl, refl)

is_trim : AreTrim (unsettled_tool_calls asked.messages.messages)
unfolding driver_or
is_trim = (refl, tt)

settling :
    decide_next takes at_work asked
    ≡ ok (settled, terminate TerminationStatus.cancelled "run.cancelled" "" [])
unfolding driver_or settled
settling = refl

closing :
    end_run takes (terminate TerminationStatus.cancelled "run.cancelled" "" []) settled ≡ ok closed
unfolding driver_or settled closed
closing = refl

decide_next-IsClosed_example : IsClosed request closed
decide_next-IsClosed_example =
    decide_next-IsClosed request takes at_work TerminationStatus.cancelled "run.cancelled" "" []
      asked settled closed asked-IsHandedOver is_trim settling closing

abbrev running : DriverState
running = record asked { core = unplanned }

abbrev interrupted : DriverState
unfolding driver_or
interrupted = driver_or running (
    terminate_interrupted takes RunMode.build TerminationStatus.cancelled "run.cancelled" "Stop"
      CoreBoundaryKind.after_tools running)

running-IsHandedOver : IsHandedOver request running
unfolding driver_or
running-IsHandedOver = (refl, refl)

interrupting :
    terminate_interrupted takes RunMode.build TerminationStatus.cancelled "run.cancelled" "Stop"
      CoreBoundaryKind.after_tools running
    ≡ ok interrupted
unfolding driver_or interrupted
interrupting = refl

terminate_interrupted-IsClosed_example : IsClosed request interrupted
terminate_interrupted-IsClosed_example =
    terminate_interrupted-IsClosed request takes RunMode.build TerminationStatus.cancelled
      "run.cancelled" "Stop" CoreBoundaryKind.after_tools running interrupted running-IsHandedOver
      refl is_trim interrupting

-- One of two calls comes back with a result.
abbrev given : ToolResult
given = incomplete_result list_call

given_known : contains "t2" ("t1" ∷ "t2" ∷ []) ≡ true
unfolding driver_or
given_known = refl

calls-AreNamed : All IsNamed (read_call ∷ list_call ∷ [])
unfolding driver_or
calls-AreNamed = ((refl, refl, refl), ((refl, refl, refl), tt))

complete_results-IsBatch_example :
    (batch : List ToolResult) × (complete_results (read_call ∷ list_call ∷ []) (given ∷ [])
      ≡ ok batch)
    × IsBatch (read_call ∷ list_call ∷ []) (given ∷ []) batch
complete_results-IsBatch_example =
    complete_results-IsBatch (read_call ∷ list_call ∷ []) (given ∷ []) (given_known, tt) (tt, tt)
      calls-AreNamed

-- An id with a blank in front of it is another id in the result than in the call.
abbrev padded_call : ToolCall → Result (List ToolResult)
padded_call call = complete_results (record call { id = " t1" } ∷ []) []

padded_call_raises : padded_call read_call ≡ err key_error
unfolding driver_or
padded_call_raises = refl
