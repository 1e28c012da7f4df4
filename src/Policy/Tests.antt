-- ===== src/Policy/Tests.antt =====
-- core/policy.py: the questions that the policy asks of an observation, and its replies.
use Prim.Native.String.{◌++◌}
use codepilot_stable.Base.{
  String, Bool, true, false, ◌&&◌, ◌||◌, not, Option, none, some, List, [], ◌∷◌, any, length, ltb,
  str_eq, if◌then◌else◌, Result, ok, ◌>>=◌,
}
use codepilot_stable.Literals.{
  RunMode, ModelPurpose, CoreWaitKind, TerminationStatus, ToolStatus, tool_unavailable,
  verification_failed, replan_required,
}
use codepilot_stable.Text.{strip}
use codepilot_stable.State.{CoreState, has_blocker, is_none}
use codepilot_stable.Tools.{
  ToolCall, ToolResult, ToolError, AssistantBlock, text_block, call_block, other_block, Value,
  truthy, str,
}
use codepilot_stable.Events.{Payload, text}
use codepilot_stable.Observations.{
  CoreObservation, model, tool_batch, cancellation, ModelObservation, is_failed, is_text,
}
use codepilot_stable.Contracts.{
  CoreLimits, CoreReason, CoreDecision, call_model, wait, terminate, init_reason, init_directive,
  init_wait, reference_tuple, required_core_text,
}

pub record PolicyContext : Type 0 where
  pub mode : RunMode
  pub limits : CoreLimits

-- the calls among the blocks of a message
unfoldable pub calls_of : List AssistantBlock → List ToolCall
calls_of [] = []
calls_of (text_block s ∷ blocks) = calls_of blocks
calls_of (call_block call ∷ blocks) = call ∷ calls_of blocks
calls_of (other_block ∷ blocks) = calls_of blocks

-- `_tool_calls`
unfoldable pub tool_calls : ModelObservation → List ToolCall
unfolding calls_of
tool_calls o = elim o.message [ none ↦ [] | some blocks ↦ calls_of blocks ]

-- `_tool_calls(observation) if isinstance(observation, ModelObservation) else ()`
unfoldable pub observed_calls : CoreObservation → List ToolCall
unfolding tool_calls
observed_calls (model o) = tool_calls o
observed_calls _ = []

-- `_is_final_candidate` of a model observation
unfoldable pub is_final_model : ModelObservation → Bool
unfolding tool_calls
is_final_model o = not (is_failed o.status) && (elim o.message [
  | none ↦ false
  | some blocks ↦ not (ltb 0 (length (tool_calls o))) && any is_text blocks
])

-- `_is_final_candidate`
unfoldable pub is_final_candidate : CoreObservation → Bool
unfolding is_final_model
is_final_candidate (model o) = is_final_model o
is_final_candidate _ = false

abbrev pub is_cancelled : ToolStatus → Bool
is_cancelled ToolStatus.cancelled = true
is_cancelled _ = false

-- `isinstance(observation, CancellationObservation) or _has_tool_status(observation, "cancelled")`
unfoldable pub is_cancellation : CoreObservation → Bool
is_cancellation (cancellation o) = true
is_cancellation (tool_batch o) = any (λ (r : ToolResult). is_cancelled r.status) o.results
is_cancellation _ = false

-- `value.get("status") == "failed"`
abbrev pub says_failed : Value → Bool
says_failed (Value.text s) = str_eq s "failed"
says_failed _ = false

-- a result with an error, or with a failed verification
unfoldable pub is_bad_result : ToolResult → Bool
is_bad_result r =
    not (is_none r.error) || (elim r.verification [ none ↦ false | some d ↦ says_failed d.status ])

-- the part of `_needs_recovery` that reads the observation
unfoldable pub observation_needs_recovery : CoreObservation → Bool
unfolding tool_calls is_bad_result
observation_needs_recovery (model o) = is_failed o.status || (elim o.message [
  | none ↦ true
  | some blocks ↦ not (ltb 0 (length (tool_calls o))) && not (any is_text blocks)
])
observation_needs_recovery (tool_batch o) = any is_bad_result o.results
observation_needs_recovery _ = false

-- `_needs_recovery`
unfoldable pub needs_recovery : CoreState → CoreObservation → Bool
unfolding observation_needs_recovery
needs_recovery s o =
    has_blocker verification_failed s.task.blockers
    || has_blocker tool_unavailable s.task.blockers
    || has_blocker replan_required s.task.blockers
    || observation_needs_recovery o

-- `_call_model`
unfoldable pub ask_model : ModelPurpose → String → List String → List String → Result CoreDecision
ask_model purpose code refs constraints = do
  directive ←
      init_directive (record { code = code; constraints = constraints; evidence_refs = refs })
  reason ← init_reason (record {
    code = code;
    message = "";
    source = "core";
    recoverable = true;
    evidence_refs = refs;
  })
  ok (call_model purpose directive reason)

-- `Terminate(status, reason_code, message, evidence_refs)`
unfoldable pub stop : TerminationStatus → String → String → List String → Result CoreDecision
stop status code message refs = do
  code' ← required_core_text code
  refs' ← reference_tuple refs
  ok (terminate status code' (strip message) refs')

-- `Wait(CoreWait(kind, request_id, CoreReason(...), payload))`
unfoldable pub wait_for :
    CoreWaitKind → String → CoreReason → List (String × Payload) → Result CoreDecision
wait_for kind request_id reason payload = do
  reason' ← init_reason reason
  w ←
      init_wait
        (record { kind = kind; request_id = request_id; reason = reason'; payload = payload })
  ok (wait w)

-- a reason of the Core itself from which the run can go on
abbrev pub core_reason : String → CoreReason
core_reason code = record {
  code = code;
  message = "";
  source = "core";
  recoverable = true;
  evidence_refs = [];
}

-- `CoreReason(code, message, source="tools", recoverable=True, evidence_refs=(call_id,))`
abbrev pub tool_reason : String → String → String → CoreReason
tool_reason code message call_id = record {
  code = code;
  message = message;
  source = "tools";
  recoverable = true;
  evidence_refs = call_id ∷ [];
}

abbrev pub is_ambiguous : Option ToolError → Bool
is_ambiguous none = false
is_ambiguous (some e) = str_eq e.code "tool.recovery.ambiguous"

abbrev pub error_message : Option ToolError → String
error_message none = ""
error_message (some e) = e.message

abbrev pub call_payload : ToolResult → List (String × Payload)
call_payload r = ("tool_call_id", text r.tool_call_id) ∷ ("tool_name", text r.tool_name) ∷ []

-- `str(interaction.get("request_id") or tool_call_id)`
unfoldable pub request_id_of : Value → String → String
request_id_of value call_id = if truthy value then str value else call_id

-- the body of the loop of `_external_wait`, for a result that is not ambiguous
unfoldable pub suspended : ToolResult → Option (Result CoreDecision)
suspended r = elim r.status [
  | ToolStatus.approval_required ↦ elim r.approval [
    | none ↦ none
    | some approval ↦ some (
        wait_for CoreWaitKind.tool_approval approval.approval_id
          (tool_reason "tool.approval_required" approval.reason r.tool_call_id)
          (("tool_call_id", text r.tool_call_id)
            ∷ ("tool_name", text r.tool_name)
            ∷ ("risk", text approval.risk)
            ∷ []))
  ]
  | ToolStatus.user_input_required ↦ elim r.interaction [
    | none ↦ none
    | some request ↦ some (
        wait_for CoreWaitKind.user_input (request_id_of request r.tool_call_id)
          (tool_reason "tool.user_input_required" "" r.tool_call_id) [])
  ]
  | _ ↦ none
]

-- the loop of `_external_wait`
unfoldable pub external_wait_in : List ToolResult → Option (Result CoreDecision)
unfolding suspended request_id_of
external_wait_in [] = none
external_wait_in (r ∷ results) =
    let next = external_wait_in results in
    if is_ambiguous r.error
    then some (
        wait_for CoreWaitKind.user_input ("recovery:" ++ r.tool_call_id)
          (tool_reason "tool.recovery.ambiguous" (error_message r.error) r.tool_call_id)
          (call_payload r))
    else elim (suspended r) [ some decision ↦ some decision | none ↦ next ]

-- `_external_wait`
unfoldable pub external_wait : CoreObservation → Option (Result CoreDecision)
unfolding external_wait_in
external_wait (tool_batch o) = external_wait_in o.results
external_wait _ = none
