-- ===== src/Reducer/Steps/Kept.antt =====
-- A revision of a plan keeps what it can of the steps, and gives exactly the steps that it defines.
use codepilot_stable.Base.{
  ◌≡◌, refl, Bool, true, Option, none, some, List, [], ◌∷◌, map, eq_iff, arith,
}
use codepilot_stable.Plan.{PlanStep, PlanStepDefinition}
use codepilot_stable.Reducer.Steps.{preserve_matching_steps, same_definition, find_last, get_or}

-- the definition of a step, `PlanStep.definition`
abbrev pub definition_of : PlanStep → PlanStepDefinition
definition_of s = record { step = s.step; details = s.details; verification = s.verification }

find_last-found :
    (p : PlanStep → Bool) (steps : List PlanStep) (s : PlanStep)
    → find_last p steps ≡ some s
    → p s ≡ true
unfolding find_last
find_last-found p [] s h = ground arith
find_last-found p (x ∷ steps) s h = ground (arith, find_last-found p steps s)

same_definition-eq :
    (a b : PlanStep) → same_definition a b ≡ true → definition_of a ≡ definition_of b
same_definition-eq a b h =
    let e1 : a.step ≡ b.step = ground (arith, eq_iff a.step b.step) in
    let e2 : a.details ≡ b.details = ground (arith, eq_iff a.details b.details) in
    let e3 : a.verification ≡ b.verification =
      ground (arith, eq_iff a.verification b.verification) in
    rw (e1, e2, e3) refl

kept_definition :
    (s : PlanStep) (o : Option PlanStep)
    → ((old : PlanStep) → o ≡ some old → same_definition old s ≡ true)
    → definition_of (get_or o s) ≡ definition_of s
kept_definition s none h = refl
kept_definition s (some old) h = same_definition-eq old s (h old refl)

-- The steps of a revised plan are those of the revision, in its order, whatever steps of the plan
-- before it are kept for them.
pub preserve_matching_steps_definitions :
    (previous replacement : List PlanStep)
    → map definition_of (preserve_matching_steps previous replacement)
      ≡ map definition_of replacement
unfolding preserve_matching_steps
preserve_matching_steps_definitions previous [] = refl
preserve_matching_steps_definitions previous (s ∷ replacement) =
    let first =
      kept_definition s (find_last (λ old. same_definition old s) previous)
        (find_last-found (λ old. same_definition old s) previous) in
    rw (first, preserve_matching_steps_definitions previous replacement) refl
