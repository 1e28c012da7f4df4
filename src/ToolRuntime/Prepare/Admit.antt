-- ===== src/ToolRuntime/Prepare/Admit.antt =====
-- Which calls `admit` lets run.
use codepilot_stable.Base.{
  String, some, List, [], ◌∷◌, ◌≡◌, sym, ap, ◌∙◌, ok, on_ok, Option-cases, inl, inr, ◌⊎◌, ◌≢◌,
}
use codepilot_stable.Security.Types.{PermissionEffect, PermissionDecision, ApprovalGrant}
use codepilot_stable.Security.Engine.Allowed.{PermissionEffect-cases}
use codepilot_stable.Security.Grants.{build_approval_challenge}
use codepilot_stable.Attempts.Types.{
  ToolAttemptState, ToolAttemptRecord, ToolStateStore, Change, set_challenge,
}
use codepilot_stable.Attempts.Store.{get, find_reusable_grant}
use codepilot_stable.ToolRuntime.Types.{ToolRuntime, Prepared, ready, move, approval_result}
use codepilot_stable.ToolRuntime.Moves.{Moved, move-Moved, settle_made-ready, answer_with-ready}
use codepilot_stable.ToolRuntime.Prepare.{Moment, challenge_ttl_ms, queue_call, ask_user, admit}

module _ {Input : Type 0} (runtime : ToolRuntime Input) (moment : Moment) where
  -- what `admit` says of a call that may run
  unfoldable pub Admits :
      PermissionDecision
      → Prepared Input
      → ToolStateStore
      → ToolStateStore
      → Prepared Input
      → Type 0
  Admits permission call store after ran =
      (call ≡ ran)
      × ((permission.effect ≡ PermissionEffect.allow)
          ⊎ ((permission.effect ≡ PermissionEffect.ask)
              × (grant : ApprovalGrant) × (find_reusable_grant moment.search_at_ms call.request
                    call.resolution.access store
                  ≡ some grant)))
      × ((r : ToolAttemptRecord) × (get call.attempt_id after ≡ some r)
          × (r.state ≡ ToolAttemptState.queued))

  queue_call-ready :
      (changes : List Change) (call ran : Prepared Input) (store after : ToolStateStore)
      → queue_call changes call store ≡ ok (after, ready ran)
      → (call ≡ ran)
        × ((r : ToolAttemptRecord) × (get call.attempt_id after ≡ some r)
            × (r.state ≡ ToolAttemptState.queued))
  unfolding queue_call Moved
  queue_call-ready changes call ran store after h =
      on_ok (move call.attempt_id ToolAttemptState.queued changes store) _ h (λ t moves h'.
        let moved = move-Moved call.attempt_id ToolAttemptState.queued changes store t moves in
        let same_call : call ≡ ran = cc in
        let same_store : t ≡ after = cc in
        (same_call, (moved.1, ap (get call.attempt_id) (sym same_store) ∙ moved.6, moved.4)))

  ask_user-ready :
      (reason : String) (call ran : Prepared Input) (store after : ToolStateStore)
      → ask_user runtime moment reason call store ≢ ok (after, ready ran)
  unfolding ask_user
  ask_user-ready reason call ran store after h =
      on_ok
        (build_approval_challenge moment.drawn
          (runtime.approval_fingerprint call.request call.resolution.access) moment.challenge_at_ms
          call.request call.resolution.access reason challenge_ttl_ms)
        _ h
        (λ challenge built h'.
          on_ok
            (move call.attempt_id ToolAttemptState.awaiting_approval (set_challenge challenge ∷ [])
              store)
            _ h'
            (λ t moves h''.
              answer_with-ready t (approval_result call.request challenge) after ran h''))

  pub admit-ready :
      (permission : PermissionDecision) (call ran : Prepared Input) (store after : ToolStateStore)
      → admit runtime moment permission call store ≡ ok (after, ready ran)
      → Admits permission call store after ran
  unfolding admit Admits
  admit-ready permission call ran store after h = elim (PermissionEffect-cases permission.effect) [
    | inl denies ↦
        let h' = rw (denies, admit) at h in
        absurd (settle_made-ready call.attempt_id ToolAttemptState.denied _ store after ran h')
    | inr (inl allows) ↦
        let h' = rw (allows, admit) at h in
        let runs = queue_call-ready [] call ran store after h' in (runs.0, inl allows, runs.1)
    | inr (inr asks) ↦
        let h' = rw (asks, admit) at h in
        elim (Option-cases
          (find_reusable_grant moment.search_at_ms call.request call.resolution.access store)) [
            | inl missing ↦
                let h'' = rw missing at h' in
                absurd (ask_user-ready permission.reason call ran store after h'')
            | inr (grant, has) ↦
                let h'' = rw has at h' in
                let runs = queue_call-ready _ call ran store after h'' in
                (runs.0, inr (asks, grant, has), runs.1)
          ]
  ]
