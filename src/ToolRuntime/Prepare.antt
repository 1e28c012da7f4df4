-- ===== src/ToolRuntime/Prepare.antt =====
-- `ToolRuntime._prepare` of tools/runtime.py: an attempt is put down, the arguments are decoded, the
-- access is resolved, and the permission engine decides. The times that the clock shows and the
-- random part of an id are arguments.
pub mod Admit
pub mod Admitted
pub mod Settled
pub mod Total
use Prim.Native.String.{◌++◌}
use codepilot_stable.Base.{
  ℕ, String, Bool, true, false, Option, none, some, List, [], ◌∷◌, Result, err, ok, ◌>>=◌,
}
use codepilot_stable.Literals.{ToolStatus, ToolErrorKind}
use codepilot_stable.Security.Types.{
  PermissionEffect, PermissionDecision, ToolExecutionRequest, ToolAccessRequest,
}
use codepilot_stable.Security.Engine.{decide}
use codepilot_stable.Security.Grants.{build_approval_challenge}
use codepilot_stable.Attempts.Types.{
  ToolAttemptState, ToolAttemptRecord, ToolStateStore, Change, set_challenge, set_grant,
  set_grant_consumed,
}
use codepilot_stable.Attempts.Transitions.{attempt_id_for}
use codepilot_stable.Attempts.Store.{create, find_reusable_grant}
use codepilot_stable.ToolRuntime.Types.{
  Called, raised, returned, ToolRegistration, ToolRuntime, Prepared, Outcome, ready, finished,
  failure, message_or, approval_result, move, settle_made, answer_with,
}
use codepilot_stable.ToolRuntime.Registry.{not_found, stale, found, materialize}

-- the clock at the search for a grant and at the challenge, and the random part of its id
pub record Moment : Type 0 where
  pub search_at_ms : ℕ
  pub challenge_at_ms : ℕ
  pub drawn : String

-- the default of `ttl_ms`
abbrev pub challenge_ttl_ms : ℕ
challenge_ttl_ms = 300000

-- `ToolAttemptRecord(attempt_id=..., request=...)`
abbrev pub new_attempt : String → ToolExecutionRequest → ToolAttemptRecord
new_attempt attempt_id request = record {
  attempt_id = attempt_id;
  request = request;
  state = ToolAttemptState.received;
  challenge = none;
  interaction = none;
  interaction_consumed = false;
  grant = none;
  grant_consumed = false;
  result = none;
  cleanup_errors = [];
}

-- the attempt is queued, and the call may run
unfoldable pub queue_call :
    {Input : Type 0}
    → List Change
    → Prepared Input
    → ToolStateStore
    → Result (ToolStateStore × Outcome Input)
queue_call changes call store = do
  after ← move call.attempt_id ToolAttemptState.queued changes store
  ok (after, ready call)

module _ {Input : Type 0} (runtime : ToolRuntime Input) (moment : Moment) where
  -- The user is shown a challenge, and the attempt waits.
  unfoldable pub ask_user :
      String → Prepared Input → ToolStateStore → Result (ToolStateStore × Outcome Input)
  ask_user reason call store = do
    challenge ←
        build_approval_challenge moment.drawn
          (runtime.approval_fingerprint call.request call.resolution.access) moment.challenge_at_ms
          call.request call.resolution.access reason challenge_ttl_ms
    after ←
        move call.attempt_id ToolAttemptState.awaiting_approval (set_challenge challenge ∷ []) store
    answer_with after (approval_result call.request challenge)

  -- what the decision of the engine leads to
  unfoldable pub admit :
      PermissionDecision → Prepared Input → ToolStateStore → Result (ToolStateStore × Outcome Input)
  admit permission call store = elim permission.effect [
    | PermissionEffect.deny ↦
        settle_made call.attempt_id ToolAttemptState.denied
          (failure call.request "tool.permission.denied" ToolErrorKind.permission permission.reason
            ToolStatus.denied false)
          store
    | PermissionEffect.ask ↦
        elim (find_reusable_grant moment.search_at_ms call.request call.resolution.access store) [
          | none ↦ ask_user permission.reason call store
          | some grant ↦ queue_call (set_grant grant ∷ set_grant_consumed false ∷ []) call store
        ]
    | PermissionEffect.allow ↦ queue_call [] call store
  ]

  -- from the resolution of the access on
  unfoldable pub resolve_access :
      ToolExecutionRequest
      → String
      → ToolRegistration Input
      → Input
      → ToolStateStore
      → Result (ToolStateStore × Outcome Input)
  resolve_access request attempt_id registration decoded store =
      elim (registration.resolve decoded request) [
        | raised message ↦
            settle_made attempt_id ToolAttemptState.denied
              (failure request "tool.access.invalid" ToolErrorKind.validation
                (message_or message "Tool access resolution failed") ToolStatus.denied false)
              store
        | returned resolution ↦
            admit (decide runtime.permission_engine request registration.policy resolution.access)
              (record {
                request = request;
                registration = registration;
                resolution = resolution;
                attempt_id = attempt_id;
              })
              store
      ]

  -- from the decoding of the arguments on
  unfoldable pub decode_input :
      ToolExecutionRequest
      → String
      → ToolRegistration Input
      → ToolStateStore
      → Result (ToolStateStore × Outcome Input)
  decode_input request attempt_id registration store =
      elim (registration.decode request.arguments) [
        | raised message ↦
            settle_made attempt_id ToolAttemptState.failed
              (failure request "tool.input.invalid" ToolErrorKind.validation
                (message_or message "Tool input validation failed") ToolStatus.error false)
              store
        | returned decoded ↦ do
          after ← move attempt_id ToolAttemptState.resolving_access [] store
          resolve_access request attempt_id registration decoded after
      ]

  -- from the check of the arguments' text on
  unfoldable pub validate :
      ToolExecutionRequest → String → ToolStateStore → Result (ToolStateStore × Outcome Input)
  validate request attempt_id store = elim request.argument_parse_error [
    | some message ↦
        settle_made attempt_id ToolAttemptState.failed
          (failure request "tool.arguments.invalid_json" ToolErrorKind.validation message
            ToolStatus.error false)
          store
    | none ↦ elim (materialize runtime.registrations request.tool_name request.registration_id) [
      | not_found message ↦
          settle_made attempt_id ToolAttemptState.failed
            (failure request "tool.registration.not_found" ToolErrorKind.registration message
              ToolStatus.error false)
            store
      | stale message ↦
          settle_made attempt_id ToolAttemptState.failed
            (failure request "tool.registration.stale" ToolErrorKind.stale_registration message
              ToolStatus.error false)
            store
      | found registration ↦ decode_input request attempt_id registration store
    ]
  ]

  unfoldable pub prepare :
      ToolExecutionRequest → ToolStateStore → Result (ToolStateStore × Outcome Input)
  prepare request store = elim (create (new_attempt (attempt_id_for request) request) store) [
    | err error ↦ answer_with store (
        failure request "tool.state.conflict" ToolErrorKind.internal
          ("Tool attempt already exists: " ++ attempt_id_for request) ToolStatus.error false)
    | ok created ↦ do
      after ← move (attempt_id_for request) ToolAttemptState.validating [] created
      validate request (attempt_id_for request) after
  ]
