-- ===== src/ToolRuntime/Prepare/Admitted.antt =====
-- What stands behind a call that the preparation lets run.
use mathlib.Core.Path.{subst}
use codepilot_stable.Base.{
  String, some, [], ◌≡◌, refl, sym, ap, ◌∙◌, ok, on_ok, Holds, Option-cases, inl, inr, ◌⊎◌,
  Result-cases,
}
use codepilot_stable.Security.Types.{PermissionEffect, ToolExecutionRequest, ApprovalGrant}
use codepilot_stable.Security.Engine.{decide}
use codepilot_stable.Security.Engine.Allowed.{IsPermitted, IsCleared, decide-IsPermitted}
use codepilot_stable.Attempts.Types.{ToolAttemptState, ToolAttemptRecord, ToolStateStore}
use codepilot_stable.Attempts.Transitions.{attempt_id_for}
use codepilot_stable.Attempts.Store.{create, get, find_reusable_grant}
use codepilot_stable.Attempts.Store.Reuse.{Covers, find_reusable_grant-Covers}
use codepilot_stable.ToolRuntime.Types.{
  returned, ToolRegistration, ToolRuntime, Prepared, ready, Called-cases, move,
}
use codepilot_stable.ToolRuntime.Registry.{found, materialize, Materialized-cases}
use codepilot_stable.ToolRuntime.Moves.{
  settle_made-ready, answer_with-ready, IsUngranted, create-IsUngranted, move-IsUngranted,
}
use codepilot_stable.ToolRuntime.Prepare.{
  Moment, new_attempt, resolve_access, decode_input, validate, prepare,
}
use codepilot_stable.ToolRuntime.Prepare.Admit.{Admits, admit-ready}

module _ {Input : Type 0} (runtime : ToolRuntime Input) (moment : Moment) where
  -- The engine lets the call run, or it asks and an attempt of the store has a grant that covers it.
  pub IsAuthorised : ToolExecutionRequest → ToolStateStore → Prepared Input → Type 0
  IsAuthorised request store call =
      (IsPermitted runtime.permission_engine request call.registration.policy call.resolution.access
        × IsCleared runtime.permission_engine request call.registration.policy
            call.resolution.access)
      ⊎ (((decide runtime.permission_engine request call.registration.policy
              call.resolution.access).effect
            ≡ PermissionEffect.ask)
          × (entry : String × ToolAttemptRecord) × (grant : ApprovalGrant) × Holds entry
              store.attempts
          × (entry.1.grant ≡ some grant)
          × Covers moment.search_at_ms request call.resolution.access entry.1 grant)

  -- The call is the request's, over the registration that its name and id lead to, with what its
  -- resolver makes of the decoded arguments, and its attempt is queued.
  pub IsAdmitted : ToolExecutionRequest → ToolStateStore → ToolStateStore → Prepared Input → Type 0
  IsAdmitted request store after call =
      (call.request ≡ request)
      × (materialize runtime.registrations request.tool_name request.registration_id
          ≡ found call.registration)
      × ((decoded : Input) × (call.registration.decode request.arguments ≡ returned decoded)
          × (call.registration.resolve decoded request ≡ returned call.resolution))
      × IsAuthorised request store call
      × ((r : ToolAttemptRecord) × (get (attempt_id_for request) after ≡ some r)
          × (r.state ≡ ToolAttemptState.queued))

  -- what the engine's decision means, for a store whose grants are those of an earlier one
  authorised :
      (request : ToolExecutionRequest) (earlier store after : ToolStateStore)
      (call ran : Prepared Input)
      → call.request ≡ request
      → IsUngranted call.attempt_id earlier store
      → Admits runtime moment
          (decide runtime.permission_engine request call.registration.policy call.resolution.access)
          call
          store
          after
          ran
      → IsAuthorised request earlier call
  unfolding Admits IsAuthorised IsUngranted
  authorised request earlier store after call ran same ungranted admits = elim admits.1 [
    | inl allows ↦ inl (
        decide-IsPermitted runtime.permission_engine request call.registration.policy
          call.resolution.access allows)
    | inr (asks, grant, has) ↦
        let has' : find_reusable_grant moment.search_at_ms request call.resolution.access store
            ≡ some grant =
          ap (λ q. find_reusable_grant moment.search_at_ms q call.resolution.access store)
            (sym same)
          ∙ has in
        let covers =
          find_reusable_grant-Covers moment.search_at_ms request call.resolution.access store grant
            has' in
        inr
          (asks, covers.0, grant, ungranted.1 covers.0 grant covers.1 covers.2, covers.2, covers.3)
  ]

  resolve_access-IsAdmitted :
      (request : ToolExecutionRequest) (registration : ToolRegistration Input) (input : Input)
      (earlier store after : ToolStateStore) (call : Prepared Input)
      → materialize runtime.registrations request.tool_name request.registration_id
        ≡ found registration
      → registration.decode request.arguments ≡ returned input
      → IsUngranted (attempt_id_for request) earlier store
      → resolve_access runtime moment request (attempt_id_for request) registration input store
        ≡ ok (after, ready call)
      → IsAdmitted request earlier after call
  unfolding resolve_access IsAdmitted Admits
  resolve_access-IsAdmitted request registration input earlier store after call m d ungranted h =
      elim (Called-cases (registration.resolve input request)) [
        | inl (message, raises) ↦
            let h' = rw (raises, resolve_access) at h in
            absurd (
              settle_made-ready (attempt_id_for request) ToolAttemptState.denied _ store after call
                h')
        | inr (resolution, returns) ↦
            let h' = rw (returns, resolve_access) at h in
            let first : Prepared Input = record {
              request = request;
              registration = registration;
              resolution = resolution;
              attempt_id = attempt_id_for request;
            } in
            let admits = admit-ready runtime moment _ first call store after h' in
            let allowed = authorised request earlier store after first call refl ungranted admits in
            subst (IsAdmitted request earlier after) admits.0
              (refl, m, (input, d, returns), allowed, admits.2)
      ]

  decode_input-IsAdmitted :
      (request : ToolExecutionRequest) (registration : ToolRegistration Input)
      (earlier store after : ToolStateStore) (call : Prepared Input)
      → materialize runtime.registrations request.tool_name request.registration_id
        ≡ found registration
      → IsUngranted (attempt_id_for request) earlier store
      → decode_input runtime moment request (attempt_id_for request) registration store
        ≡ ok (after, ready call)
      → IsAdmitted request earlier after call
  unfolding decode_input
  decode_input-IsAdmitted request registration earlier store after call m ungranted h =
      let id = attempt_id_for request in
      elim (Called-cases (registration.decode request.arguments)) [
        | inl (message, raises) ↦
            let h' = rw (raises, decode_input) at h in
            absurd (settle_made-ready id ToolAttemptState.failed _ store after call h')
        | inr (input, returns) ↦
            let h' = rw (returns, decode_input) at h in
            on_ok (move id ToolAttemptState.resolving_access [] store) _ h' (λ t moves h''.
              resolve_access-IsAdmitted request registration input earlier t after call m returns
                (move-IsUngranted id ToolAttemptState.resolving_access earlier store t ungranted
                  moves)
                h'')
      ]

  validate-IsAdmitted :
      (request : ToolExecutionRequest) (earlier store after : ToolStateStore)
      (call : Prepared Input)
      → IsUngranted (attempt_id_for request) earlier store
      → validate runtime moment request (attempt_id_for request) store ≡ ok (after, ready call)
      → IsAdmitted request earlier after call
  unfolding validate
  validate-IsAdmitted request earlier store after call ungranted h =
      let id = attempt_id_for request in
      elim (Option-cases request.argument_parse_error) [
        | inr (message, fails) ↦
            let h' = rw (fails, validate) at h in
            absurd (settle_made-ready id ToolAttemptState.failed _ store after call h')
        | inl parses ↦
            let h' = rw (parses, validate) at h in
            elim (Materialized-cases
              (materialize runtime.registrations request.tool_name request.registration_id)) [
                | inl (message, missing) ↦
                    let h'' = rw missing at h' in
                    absurd (settle_made-ready id ToolAttemptState.failed _ store after call h'')
                | inr (inl (message, old)) ↦
                    let h'' = rw old at h' in
                    absurd (settle_made-ready id ToolAttemptState.failed _ store after call h'')
                | inr (inr (registration, is_found)) ↦
                    let h'' = rw is_found at h' in
                    decode_input-IsAdmitted request registration earlier store after call is_found
                      ungranted h''
              ]
      ]

  -- A call that the preparation lets run is the request, over the registration that its name and id
  -- lead to, with the input and the access that the resolver of this registration gives for the
  -- decoded arguments, and its attempt is queued. The permission engine allows it: no step from the
  -- forbidden arguments to the effects objects, and the highest rule of each action on each
  -- resource allows it or no rule decides and the tool asks for no approval. Or the engine asks,
  -- and an attempt that was in the store before has a grant that covers the access: not for one
  -- call, not used up, not expired, of the same registration, of the same session where it is for a
  -- session, for the same actions and resources, with all the effects and no lower risk.
  pub prepare-IsAdmitted :
      (request : ToolExecutionRequest) (store after : ToolStateStore) (call : Prepared Input)
      → prepare runtime moment request store ≡ ok (after, ready call)
      → IsAdmitted request store after call
  unfolding prepare
  prepare-IsAdmitted request store after call h =
      let id = attempt_id_for request in
      elim (Result-cases (create (new_attempt id request) store)) [
        | inl (error, fails) ↦
            let h' = rw (fails, prepare) at h in absurd (answer_with-ready store _ after call h')
        | inr (created, creates) ↦
            let h' = rw (creates, prepare) at h in
            let ungranted =
              create-IsUngranted (new_attempt id request) store created refl creates in
            on_ok (move id ToolAttemptState.validating [] created) _ h' (λ t moves h''.
              validate-IsAdmitted request store t after call
                (move-IsUngranted id ToolAttemptState.validating store created t ungranted moves)
                h'')
      ]
