-- ===== src/Reducer/PlanCommands/Progress.antt =====
-- What a progress update makes of the plan.
use codepilot_stable.Base.{
  ◌≡◌, refl, ap, ◌∙◌, ℕ, String, true, false, some, List, [], all, count, leb, ltb, ok, arith,
  on_ok, Bool-cases, inl, inr, ◌⊎◌,
}
use codepilot_stable.Base.Fixed.{AllFixed}
use codepilot_stable.Literals.{replan_required}
use codepilot_stable.Plan.{
  required_text, PlanState, PlanStep, PlanStepUpdate, is_in_progress, step_ids, init_plan,
  validate_steps,
}
use codepilot_stable.State.{CoreState}
use codepilot_stable.Reducer.Facts.{CoreReduction, with_plan}
use codepilot_stable.Reducer.Steps.{merge_steps, update_steps, Outcome, reject, done}
use codepilot_stable.Reducer.Steps.Progress.{step_ids-merge_steps}
use codepilot_stable.Reducer.Steps.Completed.{keeps, update_steps_keeps, merge_steps_keeps}
use codepilot_stable.Reducer.Evidence.{known_evidence}
use codepilot_stable.Reducer.PlanCommands.{store_progress, update_progress, has_unknown_step}
use codepilot_stable.Reducer.Lifecycle.{applied_without, plan-with_plan, state-reject_command}

steps-init_plan : (p q : PlanState) → init_plan p ≡ ok q → q.steps ≡ p.steps
unfolding init_plan validate_steps
steps-init_plan p q h = ground arith

-- Nothing changed, or a plan with the same step ids, no completed step undone and at most one step in
-- progress.
abbrev pub Progressed : CoreState → PlanState → CoreReduction → Type 0
Progressed s plan r =
    (r.state ≡ s)
    ⊎ ((next : PlanState) × (r.state.task.plan ≡ some next)
        × (step_ids next.steps ≡ step_ids plan.steps)
        × (all (keeps plan.steps) next.steps ≡ true)
        × (leb (count is_in_progress next.steps) 1 ≡ true))

at_most_one : (n : ℕ) → ltb 1 n ≡ false → leb n 1 ≡ true
at_most_one n h = ground arith

stored-Progressed :
    (s : CoreState) (id : String) (n : ℕ) (updates : List PlanStepUpdate) (plan : PlanState)
    (written : List PlanStep) (r : CoreReduction)
    → all (keeps plan.steps) written ≡ true
    → store_progress s id n updates plan written ≡ ok r
    → Progressed s plan r
unfolding store_progress
stored-Progressed s id n updates plan written r k h =
    elim (Bool-cases (ltb 1 (count is_in_progress (merge_steps plan.steps written)))) [
      | inl many ↦ inl (state-reject_command s _ _ r (rw many at h))
      | inr few ↦ on_ok (init_plan _) _ (rw few at h) λ next e h1.
          on_ok (with_plan s next) _ h1 λ t e1 h2.
            let steps = steps-init_plan _ next e in
            inr (
              next,
              applied_without t replan_required _ _ _ r h2 ∙ plan-with_plan s t next e1,
              ap step_ids steps ∙ step_ids-merge_steps plan.steps written,
              ap (all (keeps plan.steps)) steps ∙ merge_steps_keeps plan.steps written k,
              ap (λ xs. leb (count is_in_progress xs) 1) steps ∙ at_most_one _ few,
            )
    ]

outcome-Progressed :
    (s : CoreState) (id : String) (n : ℕ) (updates : List PlanStepUpdate) (plan : PlanState)
    (r : CoreReduction) (out : Outcome (List PlanStep))
    → AllFixed required_text (step_ids plan.steps)
    → update_steps (known_evidence s) plan.steps updates [] ≡ out
    → has_unknown_step plan updates ≡ false
    → update_progress s id n updates plan ≡ ok r
    → Progressed s plan r
unfolding update_progress all
outcome-Progressed s id n updates plan r (reject reason) f e known h =
    inl (state-reject_command s _ _ r (rw (known, e, update_progress) at h))
outcome-Progressed s id n updates plan r (done written) f e known h =
    stored-Progressed s id n updates plan written r
      (update_steps_keeps (known_evidence s) plan.steps f updates [] written refl e)
      (rw (known, e, update_progress) at h)

-- A progress update of a plan whose step ids are in normal form is refused and changes nothing, or
-- the plan that it leaves has the steps of the plan before it, by their ids and in their order: those
-- that were completed still are, and at most one is in progress.
pub update_progress-Progressed :
    (s : CoreState) (id : String) (n : ℕ) (updates : List PlanStepUpdate) (plan : PlanState)
    (r : CoreReduction)
    → AllFixed required_text (step_ids plan.steps)
    → update_progress s id n updates plan ≡ ok r
    → Progressed s plan r
unfolding update_progress
update_progress-Progressed s id n updates plan r f h =
    elim (Bool-cases (has_unknown_step plan updates)) [
      | inl odd ↦ inl (state-reject_command s _ _ r (rw odd at h))
      | inr fine ↦ outcome-Progressed s id n updates plan r _ f refl fine h
    ]
