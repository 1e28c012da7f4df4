-- ===== src/ToolRuntime/Resume.antt =====
-- `ToolRuntime._resume_approval` of tools/runtime.py: the user's answer to a challenge is checked,
-- the access is worked out again, and a grant is issued. The times that the clock shows and the
-- random part of the grant's id are arguments.
pub mod Granted
pub mod Approved
pub mod Once
use codepilot_stable.Base.{
  ℕ, String, Bool, true, false, ◌&&◌, ◌||◌, not, Option, none, some, List, [], ◌∷◌, Result, err, ok,
  Error, value_error, plan_validation_error, core_invariant_error, runtime_error,
  tool_state_conflict, ◌>>=◌, any, ◌==◌, leb, str_eq, if◌then◌else◌, key_error,
  boundary_commit_error,
}
use codepilot_stable.Literals.{ToolStatus, ToolErrorKind}
use codepilot_stable.Tools.{ToolResult, new_tool_error, init_result}
use codepilot_stable.Security.Types.{
  ApprovalScope, ApprovalDecisionValue, ToolExecutionRequest, ToolAccessRequest, ApprovalChallenge,
  ApprovalResponse,
}
use codepilot_stable.Security.Grants.{issue_approval_grant}
use codepilot_stable.Attempts.Types.{
  ToolAttemptState, ToolAttemptRecord, ToolStateStore, set_grant, set_grant_consumed, set_result,
}
use codepilot_stable.Attempts.Transitions.{same_state, transition}
use codepilot_stable.Attempts.Store.{compare_and_set, find_by_approval_id, is_once}
use codepilot_stable.ToolRuntime.Types.{
  Called, raised, returned, ToolRegistration, ToolRuntime, Prepared, Outcome, ready, finished,
  failure, message_or, approval_consumed, move, settle_made, answer_with, ToolAccessResolution,
}
use codepilot_stable.ToolRuntime.Registry.{not_found, stale, found, materialize}

-- the clock at the check of the challenge and at the grant, and the random part of its id
pub record Answered : Type 0 where
  pub checked_at_ms : ℕ
  pub issued_at_ms : ℕ
  pub drawn : String

abbrev pub scope_index : ApprovalScope → ℕ
scope_index ApprovalScope.once = 0
scope_index ApprovalScope.session = 1
scope_index ApprovalScope.project = 2

-- `scope in scopes`
unfoldable pub has_scope : ApprovalScope → List ApprovalScope → Bool
unfolding any
has_scope scope scopes = any (λ s. scope_index s == scope_index scope) scopes

-- `challenge.expires_at_ms is not None and now >= challenge.expires_at_ms`
unfoldable pub challenge_expired : ℕ → ApprovalChallenge → Bool
challenge_expired now challenge = elim challenge.expires_at_ms [
  | none ↦ false
  | some at ↦ leb at now
]

abbrev pub is_approve : ApprovalDecisionValue → Bool
is_approve ApprovalDecisionValue.approve = true
is_approve ApprovalDecisionValue.deny = false

-- `_unknown_response` for an approval
unfoldable pub unknown_approval : String → Result ToolResult
unfolding new_tool_error init_result
unknown_approval approval_id = do
  error ←
      new_tool_error "tool.approval.not_found" ToolErrorKind.approval
        "Approval request was not found" false
  init_result "unknown" (record {
    tool_call_id = approval_id;
    tool_name = "unknown";
    status = ToolStatus.error;
    error = some error;
    effects = [];
    verification = none;
    approval = none;
    interaction = none;
  })

-- `_failure` of a call that the answer does not let run
abbrev pub refusal : ToolExecutionRequest → String → String → Result ToolResult
refusal request code message =
    failure request code ToolErrorKind.permission message ToolStatus.denied false

-- `except ToolStateConflictError: return default`
abbrev pub unless_conflict {ℓ} : {A : Type ℓ} → Result A → Result A → Result A
unless_conflict default (err tool_state_conflict) = default
unless_conflict default (err value_error) = err value_error
unless_conflict default (err plan_validation_error) = err plan_validation_error
unless_conflict default (err core_invariant_error) = err core_invariant_error
unless_conflict default (err runtime_error) = err runtime_error
unless_conflict default (err key_error) = err key_error
unless_conflict default (err boundary_commit_error) = err boundary_commit_error
unless_conflict default (ok a) = ok a

-- `_settle_approval_response` with the state `denied`
unfoldable pub deny :
    {Input : Type 0}
    → ToolAttemptRecord
    → Result ToolResult
    → ToolStateStore
    → Result (ToolStateStore × Outcome Input)
deny r made store = do
  result ← made
  unless_conflict (answer_with store (approval_consumed r.request)) (do
    q ← transition r ToolAttemptState.denied (set_result result ∷ [])
    after ← compare_and_set r.attempt_id ToolAttemptState.awaiting_approval q store
    ok (after, finished result))

-- The attempt is taken up again; there is nothing where another answer was faster.
unfoldable pub take_up : ToolAttemptRecord → ToolStateStore → Result (Option ToolStateStore)
take_up r store = unless_conflict (ok none) (do
  q ← transition r ToolAttemptState.resolving_access []
  after ← compare_and_set r.attempt_id ToolAttemptState.awaiting_approval q store
  ok (some after))

module _ {Input : Type 0} (runtime : ToolRuntime Input) (answered : Answered) where
  -- the registration and the access with its input, worked out again
  unfoldable pub resolve_again :
      ToolExecutionRequest → Called (ToolRegistration Input × ToolAccessResolution Input)
  resolve_again request =
      elim (materialize runtime.registrations request.tool_name request.registration_id) [
        | not_found message ↦ raised message
        | stale message ↦ raised message
        | found registration ↦ elim (registration.decode request.arguments) [
          | raised message ↦ raised message
          | returned decoded ↦ elim (registration.resolve decoded request) [
            | raised message ↦ raised message
            | returned resolution ↦ returned (registration, resolution)
          ]
        ]
      ]

  -- The grant is issued, and the call may run.
  unfoldable pub issue_and_queue :
      ApprovalChallenge
      → ApprovalResponse
      → Prepared Input
      → ToolStateStore
      → Result (ToolStateStore × Outcome Input)
  issue_and_queue challenge response call store = do
    grant ← issue_approval_grant answered.drawn answered.issued_at_ms challenge response
    after ←
        move call.attempt_id ToolAttemptState.queued
          (set_grant grant ∷ set_grant_consumed (is_once response.scope) ∷ []) store
    ok (after, ready call)

  -- from the second resolution of the access on
  unfoldable pub revalidate :
      ToolAttemptRecord
      → ApprovalChallenge
      → ApprovalResponse
      → ToolStateStore
      → Result (ToolStateStore × Outcome Input)
  revalidate r challenge response store = elim (resolve_again r.request) [
    | raised message ↦
        settle_made r.attempt_id ToolAttemptState.denied
          (refusal r.request "tool.approval.revalidation_failed" message) store
    | returned (registration, resolution) ↦
        if str_eq (runtime.approval_fingerprint r.request resolution.access)
          challenge.request_fingerprint
        then issue_and_queue challenge response
            (record {
              request = r.request;
              registration = registration;
              resolution = resolution;
              attempt_id = r.attempt_id;
            })
            store
        else settle_made r.attempt_id ToolAttemptState.denied
            (refusal r.request "tool.approval.fingerprint_mismatch"
              "Resolved approval fingerprint changed")
            store
  ]

  unfoldable pub approve :
      ToolAttemptRecord
      → ApprovalChallenge
      → ApprovalResponse
      → ToolStateStore
      → Result (ToolStateStore × Outcome Input)
  approve r challenge response store = elim (take_up r store) [
    | err error ↦ err error
    | ok none ↦ answer_with store (approval_consumed r.request)
    | ok (some after) ↦ revalidate r challenge response after
  ]

  -- the answer to a challenge that is there
  unfoldable pub answer :
      ToolAttemptRecord
      → ApprovalChallenge
      → ApprovalResponse
      → ToolStateStore
      → Result (ToolStateStore × Outcome Input)
  answer r challenge response store =
      if not (str_eq response.request_fingerprint challenge.request_fingerprint)
      then deny r
          (refusal r.request "tool.approval.fingerprint_mismatch" "Approval fingerprint mismatch")
          store
      else if not (has_scope response.scope challenge.allowed_scopes)
      then deny r (refusal r.request "tool.approval.scope_denied" "Approval scope is not allowed")
          store
      else if challenge_expired answered.checked_at_ms challenge
      then deny r (refusal r.request "tool.approval.expired" "Approval challenge expired") store
      else if not (is_approve response.decision)
      then deny r
          (refusal r.request "tool.approval.denied"
            (message_or response.reason "Tool execution denied"))
          store
      else approve r challenge response store

  unfoldable pub resume_approval :
      ApprovalResponse → ToolStateStore → Result (ToolStateStore × Outcome Input)
  resume_approval response store = elim (find_by_approval_id response.approval_id store) [
    | none ↦ answer_with store (unknown_approval response.approval_id)
    | some r ↦
        if not (same_state r.state ToolAttemptState.awaiting_approval) || r.grant_consumed
        then answer_with store (approval_consumed r.request)
        else elim r.challenge [
          | none ↦
              deny r
                (refusal r.request "tool.approval.fingerprint_mismatch"
                  "Approval fingerprint mismatch")
                store
          | some challenge ↦ answer r challenge response store
        ]
  ]
