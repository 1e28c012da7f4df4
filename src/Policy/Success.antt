-- ===== src/Policy/Success.antt =====
-- What has to hold of the state where the policy reports the task as completed.
use codepilot_stable.Base.{
  not, ◌&&◌, any, ◌||◌, ◌≡◌, refl, Bool, true, false, Option, none, some, List, [], ◌∷◌, length,
  ltb, all, Result, ok, arith, ◌⊎◌, inl, inr,
}
use codepilot_stable.Literals.{replan_required, TaskStatus}
use codepilot_stable.Plan.{PlanState, is_completed}
use codepilot_stable.State.{
  plan_is_active, is_settled, revision_is, has_blocker, TaskBlocker, assess_core_state, CoreState,
}
use codepilot_stable.Observations.{CoreObservation}
use codepilot_stable.Reducer.Observe.{plan_is_unfinished}
use codepilot_stable.Contracts.{CoreDecision}
use codepilot_stable.Policy.{
  Verdict, or_then, close_plan, reconcile, active_plan, on_plan, verify, finish, decide,
}
use codepilot_stable.Policy.Tests.{PolicyContext, is_final_candidate, ask_model, stop}
use codepilot_stable.Policy.Quiet.{Quiet, passes, reports_success, verify-Quiet, decide-rest}

-- A final answer of the model, while nothing blocks the task.
abbrev Final : CoreState → CoreObservation → Type 0
Final s o = (is_final_candidate o ≡ true) × (ltb 0 (length s.task.blockers) ≡ false)

finish-Final :
    (s : CoreState) (o : CoreObservation) (c : PolicyContext) (d : CoreDecision)
    → finish s o c ≡ ok d
    → reports_success d ≡ true
    → Final s o
unfolding finish ask_model stop
finish-Final s o c d h g = ground arith

close_plan-Final :
    (s : CoreState) (o : CoreObservation) (d : CoreDecision)
    → close_plan s o ≡ ok d
    → reports_success d ≡ true
    → Final s o
unfolding close_plan ask_model
close_plan-Final s o d h g = ground arith

reconcile-Quiet : (s : CoreState) (p : PlanState) → Quiet (reconcile s p)
unfolding reconcile stop ask_model
reconcile-Quiet s p d h = ground arith

active_plan-Final :
    (s : CoreState) (o : CoreObservation) (p : PlanState) (m : Result CoreDecision)
    (d : CoreDecision)
    → active_plan s o p ≡ some m
    → m ≡ ok d
    → reports_success d ≡ true
    → Final s o × (all is_completed p.steps ≡ true)
unfolding active_plan
active_plan-Final s o p m d e h g =
    let closes : close_plan s o ≡ ok d → Final s o = λ k. close_plan-Final s o d k g in
    let never : reconcile s p ≡ ok d → reports_success d ≡ false = reconcile-Quiet s p d in
    ground (arith, closes, never)

-- the tests behind the one on the plan
tail-Final :
    (s : CoreState) (o : CoreObservation) (c : PolicyContext) (d : CoreDecision)
    → or_then (verify s) (finish s o c) ≡ ok d
    → reports_success d ≡ true
    → Final s o
tail-Final s o c d h g = finish-Final s o c d (passes (verify s) _ d (verify-Quiet s) g h) g

passed_plan :
    (s : CoreState) (o : CoreObservation) (p : PlanState)
    → is_final_candidate o ≡ true
    → active_plan s o p ≡ none
    → plan_is_unfinished (some p) ≡ false
unfolding active_plan
passed_plan s o p f e = ground arith

decided_plan :
    (s : CoreState) (o : CoreObservation) (c : PolicyContext) (d : CoreDecision) (p : PlanState)
    (v : Verdict)
    → active_plan s o p ≡ v
    → or_then v (or_then (verify s) (finish s o c)) ≡ ok d
    → reports_success d ≡ true
    → Final s o × (plan_is_unfinished (some p) ≡ false)
decided_plan s o c d p none e h g =
    let final = tail-Final s o c d h g in (final, passed_plan s o p final.0 e)
decided_plan s o c d p (some m) e h g =
    let (final, finished) = active_plan-Final s o p m d e h g in (final, ground (arith, finished))

on_plan-Final :
    (s : CoreState) (o : CoreObservation) (c : PolicyContext) (d : CoreDecision)
    (p : Option PlanState)
    → or_then (on_plan p (active_plan s o)) (or_then (verify s) (finish s o c)) ≡ ok d
    → reports_success d ≡ true
    → Final s o × (plan_is_unfinished p ≡ false)
on_plan-Final s o c d none h g = (tail-Final s o c d h g, refl)
on_plan-Final s o c d (some p) h g = decided_plan s o c d p (active_plan s o p) refl h g

-- The policy reports a task as completed only where the task is satisfied already, or where the
-- model has given a final answer, nothing blocks the task, and the active plan, if there is one, has
-- all its steps completed.
pub decide-reports_success :
    (s : CoreState) (o : CoreObservation) (c : PolicyContext) (d : CoreDecision)
    → decide s o c ≡ ok d
    → reports_success d ≡ true
    → (s.task.status ≡ TaskStatus.satisfied)
      ⊎ (((is_final_candidate o ≡ true) × (ltb 0 (length s.task.blockers) ≡ false))
          × (plan_is_unfinished s.task.plan ≡ false))
decide-reports_success s o c d h g = elim (decide-rest s o c d h g) [
  | inl satisfied ↦ inl satisfied
  | inr k ↦ inr (on_plan-Final s o c d s.task.plan k g)
]

-- The last verification stands for the workspace as it is: nothing was changed, or it passed or could
-- not be made, at the workspace's revision.
abbrev pub is_verified : CoreState → Bool
is_verified s =
    not s.facts.workspace.changed
    || (is_settled s.facts.verification.status
        && revision_is s.facts.verification.verified_revision s.facts.workspace.revision)

abbrev pub has_active_plan : Option PlanState → Bool
has_active_plan none = false
has_active_plan (some plan) = plan_is_active plan

verify-passed :
    (s : CoreState)
    → s.task.status ≡ TaskStatus.active
    → has_blocker replan_required s.task.blockers ≡ false
    → verify s ≡ none
    → is_verified s ≡ true
unfolding verify assess_core_state
verify-passed s e b h = ground arith

passed_over :
    (v : Verdict) (rest : Result CoreDecision) (d : CoreDecision)
    → ((m : Result CoreDecision) → v ≡ some m → Quiet m)
    → reports_success d ≡ true
    → or_then v rest ≡ ok d
    → v ≡ none
passed_over none rest d quiet g h = refl
passed_over (some m) rest d quiet g h = let k = quiet m refl d h in ground arith

no_plan-none :
    (s : CoreState) (o : CoreObservation) (p : Option PlanState)
    → has_active_plan p ≡ false
    → on_plan p (active_plan s o) ≡ none
unfolding active_plan
no_plan-none s o none h = refl
no_plan-none s o (some p) h = rw h refl

pub no_blocker :
    (blockers : List TaskBlocker)
    → ltb 0 (length blockers) ≡ false
    → has_blocker replan_required blockers ≡ false
unfolding any
no_blocker [] h = refl
no_blocker (b ∷ blockers) h = ground arith

-- Where the policy reports an active task without an active plan as completed, the workspace was not
-- changed, or its verification, at its revision, has passed or is known to be unavailable.
pub decide-is_verified :
    (s : CoreState) (o : CoreObservation) (c : PolicyContext) (d : CoreDecision)
    → decide s o c ≡ ok d
    → reports_success d ≡ true
    → s.task.status ≡ TaskStatus.active
    → has_active_plan s.task.plan ≡ false
    → is_verified s ≡ true
decide-is_verified s o c d h g e k = elim (decide-rest s o c d h g) [
  | inl satisfied ↦ ground arith
  | inr r ↦
      let r' = rw (no_plan-none s o s.task.plan k) at r in
      let final = tail-Final s o c d r' g in
      verify-passed s e (no_blocker s.task.blockers final.1)
        (passed_over (verify s) _ d (verify-Quiet s) g r')
]
