-- ===== src/Reducer/Approvals.antt =====
-- core/reducer.py: the user's decisions on a plan, and the report that nothing can be verified.
use codepilot_stable.Base.{
  ℕ, ◌+◌, String, ◌||◌, not, none, some, List, [], ◌∷◌, length, ltb, if◌then◌else◌, Result, ok,
  ◌>>=◌,
}
use codepilot_stable.Literals.{PlanStatus, VerificationFactStatus, applied, verification_failed}
use codepilot_stable.Plan.{PlanState, init_plan}
use codepilot_stable.State.{CoreState, init_verification, plan_is_active}
use codepilot_stable.Commands.{
  approve_plan, reject_plan, approve_plan_revision, reject_plan_revision, abandon_plan,
  report_verification_unavailable, command_result,
}
use codepilot_stable.Events.{text, number, event}
use codepilot_stable.Reducer.Facts.{CoreReduction, with_plan, remove_blocker}
use codepilot_stable.Reducer.Steps.{preserve_matching_steps}
use codepilot_stable.Reducer.Replies.{
  applied_plan_command, reject_command, plan_payload, plan_revision_problem, on_found,
  plan_is_proposed,
}

-- `_approve_plan` for the plan that the tests found
unfoldable pub approve : CoreState → String → ℕ → PlanState → Result CoreReduction
approve s id revision plan =
    if not (plan_is_proposed plan)
    then reject_command s (approve_plan id revision) "plan.not_proposed"
    else do
      next_plan ←
          init_plan (record plan { status = PlanStatus.active; revision = plan.revision + 1 })
      s1 ← with_plan s next_plan
      applied_plan_command s1 (approve_plan id revision) "plan_approved"
          (plan_payload plan.plan_id next_plan.revision)

-- `_approve_plan`
unfoldable pub reduce_approve : CoreState → String → ℕ → Result CoreReduction
unfolding approve
reduce_approve s id revision =
    on_found s (approve_plan id revision) (plan_revision_problem s.task.plan revision)
      (approve s id revision)

-- `_reject_plan` for the plan that the tests found
unfoldable pub decline : CoreState → String → ℕ → String → PlanState → Result CoreReduction
decline s id revision reason plan =
    if not (plan_is_proposed plan)
    then reject_command s (reject_plan id revision reason) "plan.not_proposed"
    else do
      next_plan ←
          init_plan (record plan { status = PlanStatus.rejected; revision = plan.revision + 1 })
      s1 ← with_plan s next_plan
      applied_plan_command s1 (reject_plan id revision reason) "plan_rejected"
          (("plan_id", text plan.plan_id) ∷ ("reason", text reason) ∷ [])

-- `_reject_plan`
unfoldable pub reduce_reject : CoreState → String → ℕ → String → Result CoreReduction
unfolding decline
reduce_reject s id revision reason =
    on_found s (reject_plan id revision reason) (plan_revision_problem s.task.plan revision)
      (decline s id revision reason)

-- `_approve_plan_revision` for the plan that the tests found
unfoldable pub approve_revision : CoreState → String → ℕ → PlanState → Result CoreReduction
approve_revision s id revision plan = elim plan.pending_revision [
  | none ↦ reject_command s (approve_plan_revision id revision) "plan.no_pending_revision"
  | some pending ↦ do
    next_plan ← init_plan (record plan {
      definition = pending.definition;
      steps = preserve_matching_steps plan.steps pending.steps;
      pending_revision = none;
      close_request = none;
      revision = plan.revision + 1;
    })
    s1 ← with_plan s next_plan
    applied_plan_command s1 (approve_plan_revision id revision) "plan_revision_approved"
        (plan_payload plan.plan_id next_plan.revision)
]

-- `_approve_plan_revision`
unfoldable pub reduce_approve_revision : CoreState → String → ℕ → Result CoreReduction
unfolding approve_revision
reduce_approve_revision s id revision =
    on_found s (approve_plan_revision id revision) (plan_revision_problem s.task.plan revision)
      (approve_revision s id revision)

-- `_reject_plan_revision` for the plan that the tests found
unfoldable pub decline_revision : CoreState → String → ℕ → String → PlanState → Result CoreReduction
decline_revision s id revision reason plan = elim plan.pending_revision [
  | none ↦ reject_command s (reject_plan_revision id revision reason) "plan.no_pending_revision"
  | some pending ↦ do
    next_plan ← init_plan (record plan { pending_revision = none; revision = plan.revision + 1 })
    s1 ← with_plan s next_plan
    applied_plan_command s1 (reject_plan_revision id revision reason) "plan_revision_rejected"
        (("plan_id", text plan.plan_id) ∷ ("reason", text reason) ∷ [])
]

-- `_reject_plan_revision`
unfoldable pub reduce_reject_revision : CoreState → String → ℕ → String → Result CoreReduction
unfolding decline_revision
reduce_reject_revision s id revision reason =
    on_found s (reject_plan_revision id revision reason)
      (plan_revision_problem s.task.plan revision) (decline_revision s id revision reason)

-- `_abandon_plan` for the plan that the tests found
unfoldable pub abandon : CoreState → String → ℕ → String → PlanState → Result CoreReduction
abandon s id revision reason plan =
    if not (plan_is_proposed plan || plan_is_active plan)
    then reject_command s (abandon_plan id revision reason) "plan.not_abandonable"
    else do
      next_plan ← init_plan (record plan {
        status = PlanStatus.abandoned;
        pending_revision = none;
        close_request = none;
        revision = plan.revision + 1;
      })
      s1 ← with_plan s next_plan
      applied_plan_command s1 (abandon_plan id revision reason) "plan_abandoned"
          (("plan_id", text plan.plan_id) ∷ ("reason", text reason) ∷ [])

-- `_abandon_plan`
unfoldable pub reduce_abandon : CoreState → String → ℕ → String → Result CoreReduction
unfolding abandon
reduce_abandon s id revision reason =
    on_found s (abandon_plan id revision reason) (plan_revision_problem s.task.plan revision)
      (abandon s id revision reason)

-- the end of `_reduce_command`, for `ReportVerificationUnavailable`
unfoldable pub reduce_unavailable :
    CoreState → String → String → List String → List String → Result CoreReduction
reduce_unavailable s id reason checks refs =
    if not (ltb 0 (length checks)) || not (ltb 0 (length refs))
    then reject_command s (report_verification_unavailable id reason checks refs)
        "verification_evidence_required"
    else do
      verification ← init_verification (record {
        status = VerificationFactStatus.unavailable;
        verified_revision = some s.facts.workspace.revision;
        attempted_checks = checks;
        evidence_refs = refs;
        unavailable_reason = some reason;
      })
      s1 ←
          remove_blocker (record s { facts = record s.facts { verification = verification } })
            verification_failed
      recorded ←
          event "verification_recorded"
            (("status", text "unavailable") ∷ ("revision", number s.facts.workspace.revision) ∷ [])
            verification.evidence_refs
      result ← command_result id applied ""
      ok (record { state = s1; events = recorded ∷ []; command_results = result ∷ [] })
