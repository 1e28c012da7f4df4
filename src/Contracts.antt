-- ===== src/Contracts.antt =====
-- core/contracts.py: the limits of a run, and the decisions of the policy with the checks that
-- they pass when they are made. `details` of a reason is never set by the policy and left out.
use codepilot_stable.Base.{
  ℕ, String, Bool, Option, none, some, List, [], ◌∷◌, from_keys, if◌then◌else◌, value_error, Result,
  ok, err, ◌>>=◌, traverse,
}
use codepilot_stable.Literals.{ModelPurpose, CoreWaitKind, TerminationStatus}
use codepilot_stable.Text.{is_empty, strip}
use codepilot_stable.Tools.{ToolCall}
use codepilot_stable.Events.{Payload}

pub record CoreLimits : Type 0 where
  pub max_model_turns : ℕ
  pub max_tool_iterations : ℕ
  pub max_tool_calls_per_turn : Option ℕ
  pub max_tool_calls : Option ℕ
  pub max_recovery_attempts : ℕ
  pub repeated_tool_call_limit : ℕ

abbrev pub default_limits : CoreLimits
default_limits = record {
  max_model_turns = 100;
  max_tool_iterations = 240;
  max_tool_calls_per_turn = some 16;
  max_tool_calls = none;
  max_recovery_attempts = 5;
  repeated_tool_call_limit = 3;
}

pub record CoreReason : Type 0 where
  pub code : String
  pub message : String
  pub source : String
  pub recoverable : Bool
  pub evidence_refs : List String

pub record CoreDirective : Type 0 where
  pub code : String
  pub constraints : List String
  pub evidence_refs : List String

-- `payload` without the interaction that a tool asks for, which is passed on as it is.
pub record CoreWait : Type 0 where
  pub kind : CoreWaitKind
  pub request_id : String
  pub reason : CoreReason
  pub payload : List (String × Payload)

pub data CoreDecision : Type 0 where
  call_model : ModelPurpose → CoreDirective → CoreReason → CoreDecision
  execute_tools : List ToolCall → CoreReason → CoreDecision
  wait : CoreWait → CoreDecision
  terminate : TerminationStatus → String → String → List String → CoreDecision

-- `_required_core_text`
unfoldable pub required_core_text : String → Result String
required_core_text value =
    let text = strip value in if is_empty text then err value_error else ok text

unfoldable pub reference_tuple : List String → Result (List String)
reference_tuple refs = do texts ← traverse required_core_text refs; ok (from_keys texts)

unfoldable pub init_reason : CoreReason → Result CoreReason
init_reason r = do
  code ← required_core_text r.code
  source ← required_core_text r.source
  refs ← reference_tuple r.evidence_refs
  ok (record {
    code = code;
    message = strip r.message;
    source = source;
    recoverable = r.recoverable;
    evidence_refs = refs;
  })

unfoldable pub init_directive : CoreDirective → Result CoreDirective
init_directive d = do
  code ← required_core_text d.code
  constraints ← traverse required_core_text d.constraints
  refs ← reference_tuple d.evidence_refs
  ok (record { code = code; constraints = constraints; evidence_refs = refs })

unfoldable pub init_wait : CoreWait → Result CoreWait
init_wait w = do
  request_id ← required_core_text w.request_id
  ok (record w { request_id = request_id })

-- `ExecuteTools(calls, reason)`
unfoldable pub new_execute_tools : List ToolCall → CoreReason → Result CoreDecision
new_execute_tools [] reason = err value_error
new_execute_tools (call ∷ calls) reason = ok (execute_tools (call ∷ calls) reason)
