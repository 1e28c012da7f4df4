-- ===== src/ToolRuntime/Resume/Approved.antt =====
-- What stands behind a call that an answer of the user lets run.
use codepilot_stable.Base.{
  Result, true, false, some, ◌≡◌, refl, ok, str_eq, eq_iff, Bool-cases, Option-cases, inl, inr,
  arith,
}
use codepilot_stable.Tools.{ToolResult}
use codepilot_stable.Security.Types.{ApprovalDecisionValue, ApprovalChallenge, ApprovalResponse}
use codepilot_stable.Attempts.Types.{ToolAttemptState, ToolAttemptRecord, ToolStateStore}
use codepilot_stable.Attempts.Transitions.{same_state}
use codepilot_stable.Attempts.Store.{find_by_approval_id}
use codepilot_stable.Attempts.Store.Keyed.{Links}
use codepilot_stable.ToolRuntime.Types.{ToolRuntime, Prepared, ready}
use codepilot_stable.ToolRuntime.Moves.{answer_with-ready}
use codepilot_stable.ToolRuntime.Resume.{
  Answered, has_scope, challenge_expired, is_approve, answer, resume_approval,
}
use codepilot_stable.ToolRuntime.Resume.Granted.{IsGranted, IsShown, deny-ready, approve-ready}

decision_of :
    (decision : ApprovalDecisionValue)
    → is_approve decision ≡ true
    → decision ≡ ApprovalDecisionValue.approve
decision_of ApprovalDecisionValue.approve h = refl
decision_of ApprovalDecisionValue.deny h = cc

pub waiting_state :
    (s : ToolAttemptState)
    → same_state s ToolAttemptState.awaiting_approval ≡ true
    → s ≡ ToolAttemptState.awaiting_approval
waiting_state s h = grind arith

module _ {Input : Type 0} (runtime : ToolRuntime Input) (answered : Answered) where
  -- The user approved the challenge of an attempt that waits, in time and in a scope that it allows;
  -- the access worked out again is the one that was shown.
  unfoldable pub IsApproved :
      ApprovalResponse
      → ToolStateStore
      → ToolAttemptRecord
      → ApprovalChallenge
      → Prepared Input
      → Type 0
  IsApproved response store r challenge call =
      (find_by_approval_id response.approval_id store ≡ some r)
      × (r.state ≡ ToolAttemptState.awaiting_approval)
      × (r.grant_consumed ≡ false)
      × (r.challenge ≡ some challenge)
      × (response.request_fingerprint ≡ challenge.request_fingerprint)
      × (has_scope response.scope challenge.allowed_scopes ≡ true)
      × (challenge_expired answered.checked_at_ms challenge ≡ false)
      × (response.decision ≡ ApprovalDecisionValue.approve)
      × (call.request ≡ r.request)
      × (runtime.approval_fingerprint call.request call.resolution.access
          ≡ challenge.request_fingerprint)

  -- the checks that an answer passes
  IsAnswer : ApprovalChallenge → ApprovalResponse → Type 0
  IsAnswer challenge response =
      (response.request_fingerprint ≡ challenge.request_fingerprint)
      × (has_scope response.scope challenge.allowed_scopes ≡ true)
      × (challenge_expired answered.checked_at_ms challenge ≡ false)
      × (response.decision ≡ ApprovalDecisionValue.approve)

  answer-ready :
      (r : ToolAttemptRecord) (challenge : ApprovalChallenge) (response : ApprovalResponse)
      (store after : ToolStateStore) (call : Prepared Input)
      → answer runtime answered r challenge response store ≡ ok (after, ready call)
      → IsAnswer challenge response
        × IsShown runtime answered r challenge call
        × IsGranted runtime answered response after r challenge
        × Links r.attempt_id store after
  unfolding answer IsAnswer
  answer-ready r challenge response store after call h =
      let no_deny = λ (made : Result ToolResult). deny-ready r made store after call in
      elim (Bool-cases (str_eq response.request_fingerprint challenge.request_fingerprint)) [
        | inr differs ↦ let h' = rw (differs, answer) at h in absurd (no_deny _ h')
        | inl same ↦ elim (Bool-cases (has_scope response.scope challenge.allowed_scopes)) [
          | inr outside ↦ let h' = rw (same, outside, answer) at h in absurd (no_deny _ h')
          | inl inside ↦ elim (Bool-cases (challenge_expired answered.checked_at_ms challenge)) [
            | inl late ↦ let h' = rw (same, inside, late, answer) at h in absurd (no_deny _ h')
            | inr in_time ↦ elim (Bool-cases (is_approve response.decision)) [
              | inr denies ↦
                  let h' = rw (same, inside, in_time, denies, answer) at h in absurd (no_deny _ h')
              | inl approves ↦
                  let h' = rw (same, inside, in_time, approves, answer) at h in
                  let runs =
                    approve-ready runtime answered r challenge response store after call h' in
                  (
                    ((eq_iff _ _).0 same, inside, in_time, decision_of response.decision approves),
                    runs.0,
                    runs.1,
                    runs.2,
                  )
            ]
          ]
        ]
      ]

  pub resume_approval-ready :
      (response : ApprovalResponse) (store after : ToolStateStore) (call : Prepared Input)
      → resume_approval runtime answered response store ≡ ok (after, ready call)
      → (r : ToolAttemptRecord) × (challenge : ApprovalChallenge) × IsApproved response store r
          challenge call
        × IsGranted runtime answered response after r challenge
        × Links r.attempt_id store after
  unfolding resume_approval IsApproved IsAnswer IsShown
  resume_approval-ready response store after call h =
      elim (Option-cases (find_by_approval_id response.approval_id store)) [
        | inl unknown ↦
            let h' = rw (unknown, resume_approval) at h in
            absurd (answer_with-ready store _ after call h')
        | inr (r, found) ↦
            let h' = rw (found, resume_approval) at h in
            elim (Bool-cases (same_state r.state ToolAttemptState.awaiting_approval)) [
              | inr elsewhere ↦
                  let h'' = rw elsewhere at h' in absurd (answer_with-ready store _ after call h'')
              | inl waits ↦ elim (Bool-cases r.grant_consumed) [
                | inl used ↦
                    let h'' = rw (waits, used) at h' in
                    absurd (answer_with-ready store _ after call h'')
                | inr unused ↦
                    let h'' = rw (waits, unused) at h' in
                    elim (Option-cases r.challenge) [
                      | inl missing ↦
                          let h3 = rw missing at h'' in absurd (deny-ready r _ store after call h3)
                      | inr (challenge, has) ↦
                          let h3 = rw has at h'' in
                          let runs = answer-ready r challenge response store after call h3 in
                          let checks = runs.0 in
                          (
                            r,
                            challenge,
                            (
                              found,
                              waiting_state r.state waits,
                              unused,
                              has,
                              checks.0,
                              checks.1,
                              checks.2,
                              checks.3,
                              runs.1.0,
                              runs.1.1,
                            ),
                            runs.2,
                            runs.3,
                          )
                    ]
              ]
            ]
      ]

  -- An answer of the user lets a call run only if it approves the challenge of an attempt that
  -- waits for it and has no used grant, with the fingerprint of the challenge, in a scope that the
  -- challenge allows and before it expires; and only if the access that is worked out again has
  -- that fingerprint too. The attempt, with its request as it was, is then queued with the grant
  -- that was issued for the answer, which is used up exactly if it is for one call.
  pub resume_approval-IsApproved :
      (response : ApprovalResponse) (store after : ToolStateStore) (call : Prepared Input)
      → resume_approval runtime answered response store ≡ ok (after, ready call)
      → (r : ToolAttemptRecord) × (challenge : ApprovalChallenge) × IsApproved response store r
          challenge call
        × IsGranted runtime answered response after r challenge
  resume_approval-IsApproved response store after call h =
      let runs = resume_approval-ready response store after call h in
      (runs.0, runs.1, runs.2, runs.3)
