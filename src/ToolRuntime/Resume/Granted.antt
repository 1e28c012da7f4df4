-- ===== src/ToolRuntime/Resume/Granted.antt =====
-- How an approved call is queued: its second resolution, and the grant that its attempt gets.
use mathlib.Core.Path.{subst}
use codepilot_stable.Base.{
  Bool, none, some, [], ◌∷◌, ◌≡◌, ◌≢◌, refl, sym, ap, ◌∙◌, Result, err, ok, value_error,
  plan_validation_error, core_invariant_error, runtime_error, key_error, boundary_commit_error,
  tool_state_conflict, on_ok, str_eq, eq_iff, Bool-cases, Option-cases, Result-cases, inl, inr, ◌⊎◌,
  arith,
}
use codepilot_stable.Tools.{ToolResult}
use codepilot_stable.Security.Types.{ApprovalChallenge, ApprovalResponse, ApprovalGrant}
use codepilot_stable.Security.Grants.{issue_approval_grant}
use codepilot_stable.Attempts.Types.{
  ToolAttemptState, ToolAttemptRecord, ToolStateStore, set_grant, set_grant_consumed, set_result,
}
use codepilot_stable.Attempts.Transitions.{transition, apply_changes}
use codepilot_stable.Attempts.Transitions.Bounds.{transition-ok}
use codepilot_stable.Attempts.Store.Reads.{get-put_same, compare_and_set-ok}
use codepilot_stable.Attempts.Store.{get, compare_and_set, is_once}
use codepilot_stable.Attempts.Store.Keyed.{Links, compare_and_set-Links}
use codepilot_stable.ToolRuntime.Types.{
  Called-cases, ToolRuntime, Prepared, ready, move, approval_consumed, answer_with,
}
use codepilot_stable.ToolRuntime.Moves.{Moved, move-Moved, settle_made-ready, answer_with-ready}
use codepilot_stable.ToolRuntime.Resume.{
  Answered, unless_conflict, deny, resolve_again, issue_and_queue, revalidate, take_up, approve,
}

pub unless_conflict-ok {ℓ} :
    {A : Type ℓ} (default : Result A) (a : A) (result : Result A)
    → unless_conflict default result ≡ ok a
    → (result ≡ ok a) ⊎ (default ≡ ok a)
unless_conflict-ok default a (err tool_state_conflict) h = inr h
unless_conflict-ok default a (err value_error) h = cc
unless_conflict-ok default a (err plan_validation_error) h = cc
unless_conflict-ok default a (err core_invariant_error) h = cc
unless_conflict-ok default a (err runtime_error) h = cc
unless_conflict-ok default a (err key_error) h = cc
unless_conflict-ok default a (err boundary_commit_error) h = cc
unless_conflict-ok default a (ok b) h = inl h

pub deny-ready :
    {Input : Type 0} (r : ToolAttemptRecord) (made : Result ToolResult)
    (store after : ToolStateStore) (call : Prepared Input)
    → deny r made store ≢ ok (after, ready call)
unfolding deny
deny-ready r made store after call h = on_ok made _ h (λ result e h0.
    elim (unless_conflict-ok (answer_with store (approval_consumed r.request)) (after, ready call) _
      h0) [
        | inr settled ↦ answer_with-ready store (approval_consumed r.request) after call settled
        | inl denied ↦
            on_ok (transition r ToolAttemptState.denied (set_result result ∷ [])) _ denied
              (λ q moved h'.
                on_ok (compare_and_set r.attempt_id ToolAttemptState.awaiting_approval q store) _ h'
                  (λ t put_it h''. cc))
      ])

module _ {Input : Type 0} (runtime : ToolRuntime Input) (answered : Answered) where
  -- The attempt is queued with a grant that was issued, used up at once where it is for one call.
  unfoldable pub IsGranted :
      ApprovalResponse → ToolStateStore → ToolAttemptRecord → ApprovalChallenge → Type 0
  IsGranted response after r challenge =
      (q : ToolAttemptRecord) × (grant : ApprovalGrant) × (issue_approval_grant answered.drawn
          answered.issued_at_ms challenge response
        ≡ ok grant)
      × (get r.attempt_id after ≡ some q)
      × (q.state ≡ ToolAttemptState.queued)
      × (q.grant ≡ some grant)
      × (q.grant_consumed ≡ is_once response.scope)
      × (q.request ≡ r.request)

  -- The attempt in a store is one of the request.
  HasRequest : ToolAttemptRecord → ToolStateStore → Type 0
  HasRequest r store =
      (q : ToolAttemptRecord) × (get r.attempt_id store ≡ some q) × (q.request ≡ r.request)

  granted_transition :
      (r q : ToolAttemptRecord) (state : ToolAttemptState) (grant : ApprovalGrant) (used : Bool)
      → transition r state (set_grant grant ∷ set_grant_consumed used ∷ []) ≡ ok q
      → (q.grant ≡ some grant) × (q.grant_consumed ≡ used)
  unfolding transition apply_changes
  granted_transition r q state grant used h = ground arith

  issue_and_queue-ready :
      (challenge : ApprovalChallenge) (response : ApprovalResponse) (call ran : Prepared Input)
      (r : ToolAttemptRecord) (store after : ToolStateStore)
      → call.attempt_id ≡ r.attempt_id
      → HasRequest r store
      → issue_and_queue runtime answered challenge response call store ≡ ok (after, ready ran)
      → (call ≡ ran) × IsGranted response after r challenge × Links r.attempt_id store after
  unfolding issue_and_queue IsGranted Moved HasRequest
  issue_and_queue-ready challenge response call ran r store after same has h =
      on_ok (issue_approval_grant answered.drawn answered.issued_at_ms challenge response) _ h
        (λ grant issued h'.
          let changes = set_grant grant ∷ set_grant_consumed (is_once response.scope) ∷ [] in
          on_ok (move call.attempt_id ToolAttemptState.queued changes store) _ h' (λ t moves h''.
            let moved = move-Moved call.attempt_id ToolAttemptState.queued changes store t moves in
            let granted = granted_transition moved.0 moved.1 _ grant _ moved.3 in
            let old : some moved.0 ≡ some has.0 =
              sym moved.2 ∙ ap (λ id. get id store) same ∙ has.1 in
            let is_old : moved.0 ≡ has.0 = cc in
            let kept =
              (transition-ok moved.0 moved.1 _ _ moved.3).3
              ∙ ap (λ (x : ToolAttemptRecord). x.request) is_old
              ∙ has.2 in
            let same_call : call ≡ ran = cc in
            let same_store : t ≡ after = cc in
            let there : get r.attempt_id after ≡ some moved.1 =
              ap (λ id. get id after) (sym same)
              ∙ ap (get call.attempt_id) (sym same_store)
              ∙ moved.6 in
            (
              same_call,
              (moved.1, grant, issued, there, moved.4, granted.0, granted.1, kept),
              subst (λ id. Links id store after) same
                  (subst (Links call.attempt_id store) same_store moved.7),
            )))

  -- what a call that may run shares with the attempt and with the challenge
  unfoldable pub IsShown : ToolAttemptRecord → ApprovalChallenge → Prepared Input → Type 0
  IsShown r challenge call =
      (call.request ≡ r.request)
      × (runtime.approval_fingerprint call.request call.resolution.access
          ≡ challenge.request_fingerprint)

  revalidate-ready :
      (r : ToolAttemptRecord) (challenge : ApprovalChallenge) (response : ApprovalResponse)
      (store after : ToolStateStore) (call : Prepared Input)
      → HasRequest r store
      → revalidate runtime answered r challenge response store ≡ ok (after, ready call)
      → IsShown r challenge call
        × IsGranted response after r challenge
        × Links r.attempt_id store after
  unfolding revalidate IsShown
  revalidate-ready r challenge response store after call has h =
      elim (Called-cases (resolve_again runtime answered r.request)) [
        | inl (message, raises) ↦
            let h' = rw (raises, revalidate) at h in
            absurd (settle_made-ready r.attempt_id ToolAttemptState.denied _ store after call h')
        | inr ((registration, resolution), returns) ↦
            let h' = rw (returns, revalidate) at h in
            let shown =
              str_eq (runtime.approval_fingerprint r.request resolution.access)
                challenge.request_fingerprint in
            elim (Bool-cases shown) [
              | inr changed ↦
                  let h'' = rw changed at h' in
                  absurd
                    (settle_made-ready r.attempt_id ToolAttemptState.denied _ store after call h'')
              | inl same ↦
                  let h'' = rw same at h' in
                  let first : Prepared Input = record {
                    request = r.request;
                    registration = registration;
                    resolution = resolution;
                    attempt_id = r.attempt_id;
                  } in
                  let runs =
                    issue_and_queue-ready challenge response first call r store after refl has
                      h'' in
                  (subst (IsShown r challenge) runs.0 (refl, (eq_iff _ _).0 same), runs.1, runs.2)
            ]
      ]

  taken_store : (s t : ToolStateStore) → ok (some s) ≡ ok (some t) → s ≡ t
  taken_store s t h = cc

  take_up_keeps :
      (r : ToolAttemptRecord) (store after : ToolStateStore)
      → take_up r store ≡ ok (some after)
      → Links r.attempt_id store after × HasRequest r after
  unfolding take_up HasRequest
  take_up_keeps r store after h = elim (unless_conflict-ok (ok none) (some after) _ h) [
    | inr late ↦ absurd (cc)
    | inl taken ↦ on_ok (transition r ToolAttemptState.resolving_access []) _ taken (λ q moved h'.
        on_ok (compare_and_set r.attempt_id ToolAttemptState.awaiting_approval q store) _ h'
          (λ t put_it h''.
            let put_it' =
              compare_and_set-ok r.attempt_id ToolAttemptState.awaiting_approval q store t put_it in
            let linked =
              compare_and_set-Links r.attempt_id ToolAttemptState.awaiting_approval q store t
                put_it in
            let stored = ap (get r.attempt_id) put_it'.4 ∙ get-put_same r.attempt_id q store in
            subst (λ s. Links r.attempt_id store s × HasRequest r s) (taken_store t after h'')
              (linked, (q, stored, (transition-ok r q _ [] moved).3))))
  ]

  pub approve-ready :
      (r : ToolAttemptRecord) (challenge : ApprovalChallenge) (response : ApprovalResponse)
      (store after : ToolStateStore) (call : Prepared Input)
      → approve runtime answered r challenge response store ≡ ok (after, ready call)
      → IsShown r challenge call
        × IsGranted response after r challenge
        × Links r.attempt_id store after
  unfolding approve Links
  approve-ready r challenge response store after call h = elim (Result-cases (take_up r store)) [
    | inl (error, fails) ↦ let h' = rw (fails, approve) at h in absurd (cc)
    | inr (taken, takes) ↦ elim (Option-cases taken) [
      | inl late ↦
          let takes' = rw late at takes in
          let h' = rw (takes', approve) at h in
          absurd (answer_with-ready store (approval_consumed r.request) after call h')
      | inr (t, in_time) ↦
          let takes' = rw in_time at takes in
          let h' = rw (takes', approve) at h in
          let runs =
            revalidate-ready r challenge response t after call (take_up_keeps r store t takes').1
              h' in
          (runs.0, runs.1, λ key there. runs.2 key ((take_up_keeps r store t takes').0 key there))
    ]
  ]
