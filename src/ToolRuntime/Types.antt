-- ===== src/ToolRuntime/Types.antt =====
-- The values that tools/runtime.py passes between its stages, and the results that it builds. What
-- a tool registers as callables (the decoder of its input, the resolver of its access) is code that
-- others bring: fields of a registration, which may raise with a text. `Input` are the
-- values that a tool's decoder and resolver make of the arguments.
use codepilot_stable.Base.{
  ℕ, Option, String, Bool, false, none, some, List, [], ◌∷◌, Result, err, ok, ◌>>=◌, ◌≡◌, refl, ◌⊎◌,
  inl, inr, runtime_error, if◌then◌else◌,
}
use codepilot_stable.Literals.{ToolStatus, ToolErrorKind}
use codepilot_stable.Text.{is_empty}
use codepilot_stable.Tools.{ToolResult, new_tool_error, init_result}
use codepilot_stable.Security.Types.{
  Json, RiskLevel, ToolPolicy, ToolExecutionRequest, ToolAccessRequest, PermissionEngine,
  ApprovalChallenge,
}
use codepilot_stable.Attempts.Types.{
  ToolAttemptState, ToolStateStore, Change, set_result, set_cleanup_errors,
}
use codepilot_stable.Attempts.Transitions.{transition}
use codepilot_stable.Attempts.Store.{get, compare_and_set}

-- what a callable does: it raises an exception with this text, or returns
pub data Called (Value : Type 0) : Type 0 where
  raised : String → Called Value
  returned : Value → Called Value

pub Called-cases :
    {A : Type 0} (c : Called A)
    → ((message : String) × (c ≡ raised message)) ⊎ ((a : A) × (c ≡ returned a))
Called-cases (raised message) = inl (message, refl)
Called-cases (returned a) = inr (a, refl)

-- The input that the handler runs on is the one that the resolver gives.
pub record ToolAccessResolution (Input : Type 0) : Type 0 where
  pub input : Input
  pub access : ToolAccessRequest
  pub execution_timeout_ms : Option ℕ

pub record ToolRegistration (Input : Type 0) : Type 0 where
  pub policy : ToolPolicy
  pub decode : Json → Called Input
  pub resolve : Input → ToolExecutionRequest → Called (ToolAccessResolution Input)

pub record MaterializedTool (Input : Type 0) : Type 0 where
  pub registration_id : String
  pub registration : ToolRegistration Input

-- `approval_fingerprint` is a SHA-256 digest: an argument.
pub record ToolRuntime (Input : Type 0) : Type 0 where
  pub registrations : List (String × MaterializedTool Input)
  pub permission_engine : PermissionEngine
  pub approval_fingerprint : ToolExecutionRequest → ToolAccessRequest → String

-- `_Prepared`, without the time at which the preparation started
pub record Prepared (Input : Type 0) : Type 0 where
  pub request : ToolExecutionRequest
  pub registration : ToolRegistration Input
  pub resolution : ToolAccessResolution Input
  pub attempt_id : String

-- What a stage comes to: a call that may run, or its result.
pub data Outcome (Input : Type 0) : Type 0 where
  ready : Prepared Input → Outcome Input
  finished : ToolResult → Outcome Input

-- `_failure`, without effects and details
unfoldable pub failure :
    ToolExecutionRequest → String → ToolErrorKind → String → ToolStatus → Bool → Result ToolResult
unfolding new_tool_error init_result
failure request code kind message status retryable = do
  error ← new_tool_error code kind message retryable
  init_result request.registration_id (record {
    tool_call_id = request.tool_call_id;
    tool_name = request.tool_name;
    status = status;
    error = some error;
    effects = [];
    verification = none;
    approval = none;
    interaction = none;
  })

-- `str(exc) or default`
unfoldable pub message_or : String → String → String
unfolding is_empty
message_or message default = if is_empty message then default else message

abbrev pub risk_name : RiskLevel → String
risk_name RiskLevel.low = "low"
risk_name RiskLevel.medium = "medium"
risk_name RiskLevel.high = "high"
risk_name RiskLevel.critical = "critical"

-- `_approval_result`
unfoldable pub approval_result : ToolExecutionRequest → ApprovalChallenge → Result ToolResult
unfolding init_result
approval_result request challenge = init_result request.registration_id (record {
  tool_call_id = request.tool_call_id;
  tool_name = request.tool_name;
  status = ToolStatus.approval_required;
  error = none;
  effects = [];
  verification = none;
  approval = some (record {
    approval_id = challenge.approval_id;
    reason = challenge.reason;
    risk = risk_name challenge.risk;
  });
  interaction = none;
})

-- `_approval_consumed`
abbrev pub approval_consumed : ToolExecutionRequest → Result ToolResult
approval_consumed request =
    failure request "tool.approval.consumed" ToolErrorKind.approval
      "Approval has already been consumed" ToolStatus.error false

-- `_transition`
unfoldable pub move :
    String → ToolAttemptState → List Change → ToolStateStore → Result ToolStateStore
move attempt_id state changes store = elim (get attempt_id store) [
  | none ↦ err runtime_error
  | some r ↦ do q ← transition r state changes; compare_and_set attempt_id r.state q store
]

-- `_settle`
unfoldable pub settle :
    {Input : Type 0}
    → String
    → ToolAttemptState
    → ToolResult
    → ToolStateStore
    → Result (ToolStateStore × Outcome Input)
unfolding move
settle attempt_id state result store = do
  after ← move attempt_id state (set_result result ∷ set_cleanup_errors [] ∷ []) store
  ok (after, finished result)

-- `_settle` of a result that is made for it
unfoldable pub settle_made :
    {Input : Type 0}
    → String
    → ToolAttemptState
    → Result ToolResult
    → ToolStateStore
    → Result (ToolStateStore × Outcome Input)
unfolding settle
settle_made attempt_id state made store = do result ← made; settle attempt_id state result store

-- A result that changes nothing in the store.
abbrev pub answer_with :
    {Input : Type 0} → ToolStateStore → Result ToolResult → Result (ToolStateStore × Outcome Input)
answer_with store made = do result ← made; ok (store, finished result)
