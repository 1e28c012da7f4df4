-- ===== src/Plan.antt =====
-- core/plan.py: the checks that every plan value passes when it is made. A frozen dataclass runs
-- `__post_init__` on each construction and on each `replace`; `init_x` is that of the class `X`:
-- it returns the value with its texts in normal form, or the exception. Numbers are never negative
-- and fields have their declared types, so the type tests of the source cannot fail here.
mod Types
pub mod Validity
pub use Types.*
use codepilot_stable.Base.{
  ℕ, ◌≡◌, refl, String, Bool, true, false, ◌&&◌, ◌||◌, not, Option, none, some, List, [], ◌∷◌, map,
  length, count, from_keys, str_eq, ltb, leb, ◌==◌, if◌then◌else◌, Error, plan_validation_error,
  Result, ok, err, ◌>>=◌, ◌>>◌, guard, traverse,
}
use codepilot_stable.Literals.{PlanStepStatus, pending, in_progress}
use codepilot_stable.Text.{is_empty, collapse}

abbrev pub max_plan_items : ℕ
max_plan_items = 20

abbrev pub qualified_failures_for_revision : ℕ
qualified_failures_for_revision = 5

abbrev pub is_completed : PlanStep → Bool
is_completed s = elim s.status [ PlanStepStatus.completed ↦ true | _ ↦ false ]

abbrev pub is_in_progress : PlanStep → Bool
is_in_progress s = elim s.status [ in_progress ↦ true | _ ↦ false ]

-- `_optional_text`
unfoldable pub optional_text : String → Option String
optional_text value = let text = collapse value in if is_empty text then none else some text

-- `_optional_text(value) or ""`
abbrev pub or_empty : Option String → String
or_empty none = ""
or_empty (some text) = text

-- `_required_text`
unfoldable pub required_text : String → Result String
unfolding optional_text
required_text value = elim (optional_text value) [
  | none ↦ err plan_validation_error
  | some text ↦ ok text
]

-- `_text_tuple`
unfoldable pub text_tuple : ℕ → ℕ → List String → Result (List String)
text_tuple min_items max_items values = do
  texts ← traverse required_text values
  let items = from_keys texts
  guard (leb min_items (length items) && leb (length items) max_items) plan_validation_error
  ok items

unfoldable pub init_definition : PlanDefinition → Result PlanDefinition
init_definition d = do
  summary ← required_text d.summary
  criteria ← text_tuple 1 5 d.completion_criteria
  risks ← text_tuple 0 8 d.risks_and_open_questions
  ok (record {
    summary = summary;
    completion_criteria = criteria;
    task_understanding = or_empty (optional_text d.task_understanding);
    current_implementation = or_empty (optional_text d.current_implementation);
    target_design = or_empty (optional_text d.target_design);
    impact_scope = or_empty (optional_text d.impact_scope);
    risks_and_open_questions = risks;
    verification_plan = or_empty (optional_text d.verification_plan);
    explanation = or_empty (optional_text d.explanation);
  })

-- `require_plan_mode_details`
unfoldable pub require_plan_mode_details : PlanDefinition → Result (Unit {0})
require_plan_mode_details d = do
  guard (not (is_empty d.task_understanding)) plan_validation_error
  guard (not (is_empty d.current_implementation)) plan_validation_error
  guard (not (is_empty d.target_design)) plan_validation_error
  guard (not (is_empty d.impact_scope)) plan_validation_error
  guard (not (is_empty d.verification_plan)) plan_validation_error
  guard (ltb 0 (length d.risks_and_open_questions)) plan_validation_error

unfoldable pub init_step_definition : PlanStepDefinition → Result PlanStepDefinition
init_step_definition d = do
  step ← required_text d.step
  details ← required_text d.details
  verification ← required_text d.verification
  ok (record { step = step; details = details; verification = verification })

unfoldable pub init_step : PlanStep → Result PlanStep
init_step s = do
  step_id ← required_text s.step_id
  step ← required_text s.step
  details ← required_text s.details
  verification ← required_text s.verification
  let note = or_empty (optional_text s.completion_note)
  refs ← text_tuple 0 64 s.evidence_refs
  guard (not (is_completed s && is_empty note)) plan_validation_error
  guard (is_completed s || (is_empty note && length refs == 0)) plan_validation_error
  ok (record {
    step_id = step_id;
    step = step;
    details = details;
    verification = verification;
    status = s.status;
    completion_note = note;
    evidence_refs = refs;
  })

unfoldable pub init_step_update : PlanStepUpdate → Result PlanStepUpdate
init_step_update u = do
  step_id ← required_text u.step_id
  refs ← text_tuple 0 64 u.evidence_refs
  ok (record {
    step_id = step_id;
    status = u.status;
    completion_note = or_empty (optional_text u.completion_note);
    evidence_refs = refs;
  })

abbrev pub step_ids : List PlanStep → List String
step_ids steps = map (λ s. s.step_id) steps

-- `_validate_steps`: `len(set(ids)) != len(ids)` is the test for repeated ids.
unfoldable pub validate_steps : List PlanStep → Result (List PlanStep)
validate_steps steps = do
  guard (ltb 0 (length steps) && leb (length steps) max_plan_items) plan_validation_error
  guard (length (from_keys (step_ids steps)) == length steps) plan_validation_error
  guard (leb (count is_in_progress steps) 1) plan_validation_error
  ok steps

unfoldable pub init_pending_revision : PendingPlanRevision → Result PendingPlanRevision
init_pending_revision p = do steps ← validate_steps p.steps; ok (record p { steps = steps })

unfoldable pub init_close_request : PlanCloseRequest → Result PlanCloseRequest
init_close_request c = do
  summary ← required_text c.summary
  refs ← text_tuple 1 64 c.evidence_refs
  ok (record c { summary = summary; evidence_refs = refs })

unfoldable pub init_plan : PlanState → Result PlanState
init_plan p = do
  plan_id ← required_text p.plan_id
  steps ← validate_steps p.steps
  ok (record p { plan_id = plan_id; steps = steps })
