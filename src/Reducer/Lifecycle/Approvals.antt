-- ===== src/Reducer/Lifecycle/Approvals.antt =====
-- The user's decisions move the plan along its edges.
use codepilot_stable.Base.{
  ◌≡◌, refl, ℕ, ◌+◌, String, true, ◌||◌, Option, none, some, ok, Bool-cases, inl, inr,
}
use codepilot_stable.Literals.{PlanStatus}
use codepilot_stable.Plan.{PlanState, PendingPlanRevision}
use codepilot_stable.State.{CoreState, plan_is_active}
use codepilot_stable.Reducer.Facts.{CoreReduction}
use codepilot_stable.Reducer.Steps.{preserve_matching_steps}
use codepilot_stable.Reducer.Replies.{plan_is_proposed}
use codepilot_stable.Reducer.Approvals.{
  approve, decline, approve_revision, decline_revision, abandon,
}
use codepilot_stable.Reducer.Lifecycle.{
  PlanEdge, same, approve_edge, reject_edge, withdraw, give_up, Moved, refused-Moved, stored-Moved,
  proposed_of, active_of,
}

pub abandon_edge :
    (p : PlanState)
    → (plan_is_proposed p || plan_is_active p) ≡ true
    → PlanEdge (some p.status) (some PlanStatus.abandoned)
abandon_edge p h = elim (Bool-cases (plan_is_proposed p)) [
  | inl e ↦ rw (proposed_of p e) withdraw
  | inr e ↦ rw (active_of p (rw e at h)) give_up
]

module _ (s : CoreState) (id : String) (revision : ℕ) (plan : PlanState) (r : CoreReduction)
    (here : s.task.plan ≡ some plan) where
  pub approve-Moved : approve s id revision plan ≡ ok r → Moved (some plan) r.state.task.plan
  unfolding approve
  approve-Moved h = elim (Bool-cases (plan_is_proposed plan)) [
    | inl e ↦
        stored-Moved s (some plan)
          (record plan { status = PlanStatus.active; revision = plan.revision + 1 }) _ _ _ r refl
          (rw (proposed_of plan e) approve_edge) (rw e at h)
    | inr e ↦ refused-Moved s plan _ _ r here (rw e at h)
  ]

  pub decline-Moved :
      (reason : String)
      → decline s id revision reason plan ≡ ok r
      → Moved (some plan) r.state.task.plan
  unfolding decline
  decline-Moved reason h = elim (Bool-cases (plan_is_proposed plan)) [
    | inl e ↦
        stored-Moved s (some plan)
          (record plan { status = PlanStatus.rejected; revision = plan.revision + 1 }) _ _ _ r refl
          (rw (proposed_of plan e) reject_edge) (rw e at h)
    | inr e ↦ refused-Moved s plan _ _ r here (rw e at h)
  ]

  pub abandon-Moved :
      (reason : String)
      → abandon s id revision reason plan ≡ ok r
      → Moved (some plan) r.state.task.plan
  unfolding abandon
  abandon-Moved reason h = elim (Bool-cases (plan_is_proposed plan || plan_is_active plan)) [
    | inl e ↦
        stored-Moved s (some plan)
          (record plan {
            status = PlanStatus.abandoned;
            pending_revision = none;
            close_request = none;
            revision = plan.revision + 1;
          })
          _ _ _ r refl (abandon_edge plan e) (rw e at h)
    | inr e ↦ refused-Moved s plan _ _ r here (rw e at h)
  ]

  approve_pending-Moved :
      (o : Option PendingPlanRevision)
      → plan.pending_revision ≡ o
      → approve_revision s id revision plan ≡ ok r
      → Moved (some plan) r.state.task.plan
  unfolding approve_revision
  approve_pending-Moved none e h = refused-Moved s plan _ _ r here (rw (e, approve_revision) at h)
  approve_pending-Moved (some pending) e h =
      stored-Moved s (some plan)
        (record plan {
          definition = pending.definition;
          steps = preserve_matching_steps plan.steps pending.steps;
          pending_revision = none;
          close_request = none;
          revision = plan.revision + 1;
        })
        _ _ _ r refl same (rw (e, approve_revision) at h)

  pub approve_revision-Moved :
      approve_revision s id revision plan ≡ ok r → Moved (some plan) r.state.task.plan
  approve_revision-Moved h = approve_pending-Moved plan.pending_revision refl h

  decline_pending-Moved :
      (reason : String) (o : Option PendingPlanRevision)
      → plan.pending_revision ≡ o
      → decline_revision s id revision reason plan ≡ ok r
      → Moved (some plan) r.state.task.plan
  unfolding decline_revision
  decline_pending-Moved reason none e h =
      refused-Moved s plan _ _ r here (rw (e, decline_revision) at h)
  decline_pending-Moved reason (some pending) e h =
      stored-Moved s (some plan)
        (record plan { pending_revision = none; revision = plan.revision + 1 }) _ _ _ r refl same
        (rw (e, decline_revision) at h)

  pub decline_revision-Moved :
      (reason : String)
      → decline_revision s id revision reason plan ≡ ok r
      → Moved (some plan) r.state.task.plan
  decline_revision-Moved reason h = decline_pending-Moved reason plan.pending_revision refl h
