-- ===== src/ToolRuntime/Prepare/Total.antt =====
-- When the preparation of a call comes to an outcome, and what it can raise for.
use Prim.Native.String.{◌++◌}
use mathlib.Core.Path.{subst}
use codepilot_stable.Base.{
  String, false, List, [], ◌∷◌, ◌≡◌, refl, Result, err, ok, Option-cases, Result-cases, inl, inr,
  ◌⊎◌, Error,
}
use codepilot_stable.Literals.{ToolStatus, ToolErrorKind}
use codepilot_stable.Tools.{require_text}
use codepilot_stable.Security.Types.{
  PermissionEffect, PermissionDecision, ToolExecutionRequest, ToolAccessRequest,
}
use codepilot_stable.Security.Engine.Allowed.{PermissionEffect-cases}
use codepilot_stable.Security.Engine.{decide}
use codepilot_stable.Security.Grants.{build_approval_challenge}
use codepilot_stable.Attempts.Types.{ToolAttemptState, ToolStateStore, Change, set_challenge}
use codepilot_stable.Attempts.Transitions.{attempt_id_for, may_become}
use codepilot_stable.Attempts.Store.{create, find_reusable_grant}
use codepilot_stable.ToolRuntime.Types.{
  raised, returned, Called-cases, ToolAccessResolution, ToolRegistration, ToolRuntime, Prepared,
  Outcome, ready, message_or,
}
use codepilot_stable.ToolRuntime.Results.{
  IsText, IsTextOrNone, IsChecked, conflict-IsShowable, codes-AreTexts, decide_reason-IsText,
  failure_returns, approval_result_returns,
}
use codepilot_stable.ToolRuntime.Registry.{found, materialize}
use codepilot_stable.ToolRuntime.Prepare.{
  Moment, challenge_ttl_ms, new_attempt, queue_call, ask_user, admit, resolve_access, decode_input,
  validate, prepare,
}
use codepilot_stable.ToolRuntime.Prepare.Settled.{
  IsAt, Returns, IsBlank, move_returns, created-IsAt, materialize-cases, fails_with,
}

module _ {Input : Type 0} (runtime : ToolRuntime Input) (moment : Moment) where
  -- The challenge for an access and a reason cannot be built.
  Unbuildable : ToolExecutionRequest → ToolAccessRequest → String → Type 0
  Unbuildable request access reason =
      (error : Error) × (build_approval_challenge moment.drawn
          (runtime.approval_fingerprint request access) moment.challenge_at_ms request access reason
          challenge_ttl_ms
        ≡ err error)

  -- What the registration that the request leads to decodes.
  abbrev pub Decodes : ToolExecutionRequest → ToolRegistration Input → Input → Type 0
  Decodes request registration decoded =
      (materialize runtime.registrations request.tool_name request.registration_id
        ≡ found registration)
      × (registration.decode request.arguments ≡ returned decoded)

  -- The engine asks for an approval of the access that is resolved for the request, and the
  -- challenge for this access, with the reason of the engine, cannot be built.
  pub HasNoChallenge : ToolExecutionRequest → Type 0
  HasNoChallenge request =
      (registration : ToolRegistration Input) × (decoded : Input)
      × (resolution : ToolAccessResolution Input) × Decodes request registration decoded
      × (registration.resolve decoded request ≡ returned resolution)
      × ((decide runtime.permission_engine request registration.policy resolution.access).effect
          ≡ PermissionEffect.ask)
      × Unbuildable request resolution.access
          (decide runtime.permission_engine request registration.policy resolution.access).reason

  -- The decoder that is registered for the request, or the resolver on what is decoded, raises with
  -- a text that is blank.
  pub RaisesBlank : ToolExecutionRequest → Type 0
  RaisesBlank request =
      (registration : ToolRegistration Input) × (message : String) × (((materialize
              runtime.registrations request.tool_name request.registration_id
            ≡ found registration)
          × (registration.decode request.arguments ≡ raised message)
          × IsBlank (message_or message "Tool input validation failed"))
        ⊎ ((decoded : Input) × Decodes request registration decoded
            × (registration.resolve decoded request ≡ raised message)
            × IsBlank (message_or message "Tool access resolution failed")))

  -- The preparation returns, unless a challenge cannot be built or a callable's text is blank.
  ReturnsOr : ToolExecutionRequest → Result (ToolStateStore × Outcome Input) → Type 0
  ReturnsOr request result = Returns result ⊎ (HasNoChallenge request ⊎ RaisesBlank request)

  ask_user-Returns :
      (reason : String) (call : Prepared Input) (store : ToolStateStore)
      → IsChecked call.request
      → IsAt call.attempt_id ToolAttemptState.resolving_access store
      → Returns (ask_user runtime moment reason call store)
        ⊎ Unbuildable call.request call.resolution.access reason
  unfolding ask_user Returns Unbuildable may_become
  ask_user-Returns reason call store checked at =
      let access = call.resolution.access in
      elim (Result-cases (
        build_approval_challenge moment.drawn (runtime.approval_fingerprint call.request access)
          moment.challenge_at_ms call.request access reason challenge_ttl_ms)) [
            | inl (error, fails) ↦ inr (error, fails)
            | inr (challenge, built) ↦
                let moved =
                  move_returns call.attempt_id ToolAttemptState.resolving_access
                    ToolAttemptState.awaiting_approval (set_challenge challenge ∷ []) store at
                    refl in
                let makes = approval_result_returns call.request challenge checked in
                rw (built, moved.1, makes.1, ask_user) (inl (_, refl))
          ]

  queue_call-Returns :
      (changes : List Change) (call : Prepared Input) (store : ToolStateStore)
      → IsAt call.attempt_id ToolAttemptState.resolving_access store
      → Returns (queue_call changes call store)
  unfolding queue_call Returns may_become
  queue_call-Returns changes call store at =
      let moved =
        move_returns call.attempt_id ToolAttemptState.resolving_access ToolAttemptState.queued
          changes store at refl in
      ((moved.0, ready call), rw (moved.1, queue_call) refl)

  admit-Returns :
      (permission : PermissionDecision) (call : Prepared Input) (store : ToolStateStore)
      → IsChecked call.request
      → IsText permission.reason
      → IsAt call.attempt_id ToolAttemptState.resolving_access store
      → Returns (admit runtime moment permission call store)
        ⊎ ((permission.effect ≡ PermissionEffect.ask)
            × Unbuildable call.request call.resolution.access permission.reason)
  unfolding admit may_become
  admit-Returns permission call store checked reasoned at =
      elim (PermissionEffect-cases permission.effect) [
        | inl denies ↦
            rw (denies, admit)
              (inl (
                fails_with Input call.request call.attempt_id ToolAttemptState.resolving_access
                  ToolAttemptState.denied _ _ permission.reason _ store checked at refl
                  codes-AreTexts.1.1.1.1.1.1.0 (inr refl) (_, reasoned)))
        | inr (inl allows) ↦ rw (allows, admit) (inl (queue_call-Returns _ call store at))
        | inr (inr asks) ↦
            elim (Option-cases
              (find_reusable_grant moment.search_at_ms call.request call.resolution.access store)) [
                | inl missing ↦
                    rw (asks, missing, admit)
                      (elim (ask_user-Returns permission.reason call store checked at) [
                        | inl returns ↦ inl returns
                        | inr unbuildable ↦ inr (refl, unbuildable)
                      ])
                | inr (grant, has) ↦
                    rw (asks, has, admit) (inl (queue_call-Returns _ call store at))
              ]
      ]

  resolve_access_returns :
      (request : ToolExecutionRequest) (id : String) (registration : ToolRegistration Input)
      (decoded : Input) (store : ToolStateStore)
      → IsChecked request
      → Decodes request registration decoded
      → IsAt id ToolAttemptState.resolving_access store
      → ReturnsOr request (resolve_access runtime moment request id registration decoded store)
  unfolding resolve_access ReturnsOr HasNoChallenge RaisesBlank may_become
  resolve_access_returns request id registration decoded store checked decodes at =
      elim (Called-cases (registration.resolve decoded request)) [
        | inl (message, raises) ↦
            let told = message_or message "Tool access resolution failed" in
            elim (Result-cases (require_text told)) [
              | inl blank ↦ inr (inr (registration, message, inr (decoded, decodes, raises, blank)))
              | inr shown ↦
                  rw (raises, resolve_access)
                    (inl (
                      fails_with Input request id ToolAttemptState.resolving_access
                        ToolAttemptState.denied _ _ told _ store checked at refl
                        codes-AreTexts.1.1.1.1.1.0 (inr refl) shown))
            ]
        | inr (resolution, returns) ↦
            let permission =
              decide runtime.permission_engine request registration.policy resolution.access in
            let call : Prepared Input = record {
              request = request;
              registration = registration;
              resolution = resolution;
              attempt_id = id;
            } in
            let reasoned = decide_reason-IsText _ _ _ _ in
            rw (returns, resolve_access)
              (elim (admit-Returns permission call store checked reasoned at) [
                | inl admits ↦ inl admits
                | inr (asks, unbuildable) ↦
                    inr
                      (inl (registration, decoded, resolution, decodes, returns, asks, unbuildable))
              ])
      ]

  decode_input_returns :
      (request : ToolExecutionRequest) (id : String) (registration : ToolRegistration Input)
      (store : ToolStateStore)
      → IsChecked request
      → materialize runtime.registrations request.tool_name request.registration_id
        ≡ found registration
      → IsAt id ToolAttemptState.validating store
      → ReturnsOr request (decode_input runtime moment request id registration store)
  unfolding decode_input ReturnsOr RaisesBlank may_become
  decode_input_returns request id registration store checked is_found at =
      elim (Called-cases (registration.decode request.arguments)) [
        | inl (message, raises) ↦
            let told = message_or message "Tool input validation failed" in
            elim (Result-cases (require_text told)) [
              | inl blank ↦ inr (inr (registration, message, inl (is_found, raises, blank)))
              | inr shown ↦
                  rw (raises, decode_input)
                    (inl (
                      fails_with Input request id ToolAttemptState.validating
                        ToolAttemptState.failed _ _ told _ store checked at refl
                        codes-AreTexts.1.1.1.1.0 (inl refl) shown))
            ]
        | inr (decoded, returns) ↦
            let moved =
              move_returns id ToolAttemptState.validating ToolAttemptState.resolving_access [] store
                at refl in
            rw (returns, moved.1, decode_input)
              (resolve_access_returns request id registration decoded moved.0 checked
                (is_found, returns) moved.2)
      ]

  validate_returns :
      (request : ToolExecutionRequest) (id : String) (store : ToolStateStore)
      → IsChecked request
      → IsAt id ToolAttemptState.validating store
      → ReturnsOr request (validate runtime moment request id store)
  unfolding validate ReturnsOr may_become
  validate_returns request id store checked at =
      let fails = λ (code : String) (kind : ToolErrorKind) (message : String).
        fails_with Input request id ToolAttemptState.validating ToolAttemptState.failed code kind
          message ToolStatus.error store checked at refl in
      elim (Option-cases request.argument_parse_error) [
        | inr (message, garbled) ↦
            let shown = subst IsTextOrNone garbled checked.3 in
            rw (garbled, validate)
              (inl (fails _ _ message codes-AreTexts.1.0 (inl refl) (_, shown)))
        | inl parses ↦
            elim (materialize-cases runtime.registrations request.tool_name
              request.registration_id) [
                | inl missing ↦
                    rw (parses, missing.1, validate)
                      (inl (fails _ _ missing.0 codes-AreTexts.1.1.0 (inl refl) missing.2))
                | inr (inl old) ↦
                    rw (parses, old.1, validate)
                      (inl (fails _ _ old.0 codes-AreTexts.1.1.1.0 (inl refl) old.2))
                | inr (inr (registration, is_found)) ↦
                    simp (parses, is_found, validate)
                      (decode_input_returns request id registration store checked is_found at)
              ]
      ]

  -- The preparation of a call whose texts are those that the checks of its class leave comes to an
  -- outcome in every store: no transition that it makes is refused, and nothing is missing that it
  -- looks for. It raises only where the engine asks for an approval of the access that is resolved
  -- and the challenge for it cannot be built, or where the decoder that the request leads to, or
  -- the resolver on what is decoded, raises with a text that is blank.
  pub prepare_returns :
      (request : ToolExecutionRequest) (store : ToolStateStore)
      → IsChecked request
      → ((outcome : ToolStateStore × Outcome Input) × (prepare runtime moment request store
            ≡ ok outcome))
        ⊎ (HasNoChallenge request ⊎ RaisesBlank request)
  unfolding prepare ReturnsOr Returns may_become
  prepare_returns request store checked =
      let id = attempt_id_for request in
      elim (Result-cases (create (new_attempt id request) store)) [
        | inl (error, fails) ↦
            let makes =
              failure_returns request "tool.state.conflict" ToolErrorKind.internal
                ("Tool attempt already exists: " ++ id) ToolStatus.error false checked
                codes-AreTexts.0 (conflict-IsShowable id) (inl refl) in
            rw (fails, makes.1, prepare) (inl (_, refl))
        | inr (created, creates) ↦
            let at = created-IsAt id request store created creates in
            let moved =
              move_returns id ToolAttemptState.received ToolAttemptState.validating [] created at
                refl in
            rw (creates, moved.1, prepare) (validate_returns request id moved.0 checked moved.2)
      ]
