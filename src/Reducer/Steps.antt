-- ===== src/Reducer/Steps.antt =====
-- core/reducer.py: making the steps of a plan, keeping steps over a revision, progress updates.
pub mod Kept
pub mod Progress
pub mod Completed
use Prim.Native.String.{◌++◌}
use codepilot_stable.Base.{
  ℕ, zero, suc, ◌+◌, String, Bool, true, false, ◌&&◌, not, Option, none, some, List, [], ◌∷◌, map,
  str_eq, if◌then◌else◌, Result, ok, err, ◌>>=◌,
}
use codepilot_stable.Literals.{PlanStepStatus, pending}
use codepilot_stable.Text.{is_empty}
use codepilot_stable.Text.Decimal.{show}
use codepilot_stable.Plan.{PlanStepDefinition, PlanStep, PlanStepUpdate, is_completed, init_step}
use codepilot_stable.Reducer.Evidence.{normalize_evidence_refs, keep_known}

-- `f"{plan_id}:step:{index}"`
abbrev pub step_id_of : String → ℕ → String
step_id_of plan_id index = plan_id ++ (":step:" ++ show index)

-- `_new_step`
unfoldable pub new_step : String → PlanStepDefinition → ℕ → Result PlanStep
new_step plan_id definition index = init_step (record {
  step_id = step_id_of plan_id index;
  step = definition.step;
  details = definition.details;
  verification = definition.verification;
  status = pending;
  completion_note = "";
  evidence_refs = [];
})

-- `_new_step` for each definition, the indices counted from the given one
unfoldable pub new_steps : String → ℕ → List PlanStepDefinition → Result (List PlanStep)
unfolding new_step
new_steps plan_id index [] = ok []
new_steps plan_id index (definition ∷ definitions) = do
  first ← new_step plan_id definition index
  rest ← new_steps plan_id (suc index) definitions
  ok (first ∷ rest)

-- The keys `(step, details, verification)` agree.
abbrev pub same_definition : PlanStep → PlanStep → Bool
same_definition a b =
    str_eq a.step b.step && str_eq a.details b.details && str_eq a.verification b.verification

-- A value of a dict that is made from a list: of equal keys the last counts.
unfoldable pub find_last {ℓ} : {A : Type ℓ} → (A → Bool) → List A → Option A
find_last p [] = none
find_last p (x ∷ xs) = elim (find_last p xs) [
  | some y ↦ some y
  | none ↦ if p x then some x else none
]

-- `d.get(key, default)`
abbrev pub get_or {ℓ} : {A : Type ℓ} → Option A → A → A
get_or none default = default
get_or (some a) default = a

-- `_preserve_matching_steps`
unfoldable pub preserve_matching_steps : List PlanStep → List PlanStep → List PlanStep
unfolding find_last
preserve_matching_steps previous replacement =
    map (λ s. get_or (find_last (λ old. same_definition old s) previous) s) replacement

-- A command is rejected with a reason, or its work is done.
pub data Outcome {ℓ} (A : Type ℓ) : Type ℓ where
  reject : String → Outcome A
  done : A → Outcome A

abbrev pub completes : PlanStepUpdate → Bool
completes u = elim u.status [ PlanStepStatus.completed ↦ true | _ ↦ false ]

abbrev pub as_outcome : Result PlanStep → Outcome PlanStep
as_outcome (ok s) = done s
as_outcome (err e) = reject "plan.invalid_progress"

-- the body of the loop of `_update_plan_progress`
unfoldable pub update_step : List String → PlanStep → PlanStepUpdate → Outcome PlanStep
update_step known previous u =
    if is_completed previous && not (completes u)
    then reject "plan.completed_step_regression"
    else if completes u && is_empty u.completion_note
    then reject "plan.completion_note_required"
    else as_outcome (
        init_step (record previous {
          status = u.status;
          completion_note = (if completes u then u.completion_note else "");
          evidence_refs =
              (if completes u
                then keep_known known (normalize_evidence_refs u.evidence_refs)
                else []);
        }))

abbrev pub has_id : String → PlanStep → Bool
has_id id s = str_eq s.step_id id

-- The loop: the steps written so far, the last one first. A step that is missing in `by_id` has
-- been rejected before.
unfoldable pub update_steps :
    List String → List PlanStep → List PlanStepUpdate → List PlanStep → Outcome (List PlanStep)
unfolding update_step
update_steps known by_id [] written = done written
update_steps known by_id (u ∷ updates) written = elim (find_last (has_id u.step_id) by_id) [
  | none ↦ reject "plan.unknown_step"
  | some previous ↦ elim (update_step known previous u) [
    | reject reason ↦ reject reason
    | done s ↦ update_steps known by_id updates (s ∷ written)
  ]
]

unfoldable pub find_first {ℓ} : {A : Type ℓ} → (A → Bool) → List A → Option A
find_first p [] = none
find_first p (x ∷ xs) = let rest = find_first p xs in if p x then some x else rest

-- `tuple(next_by_id[step.step_id] for step in plan.steps)`
unfoldable pub merge_steps : List PlanStep → List PlanStep → List PlanStep
unfolding find_first
merge_steps steps written =
    map
      (λ s.
        get_or (find_first (has_id s.step_id) written)
          (get_or (find_last (has_id s.step_id) steps) s))
      steps
