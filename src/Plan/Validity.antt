-- ===== src/Plan/Validity.antt =====
-- A plan value that has passed its checks passes them again unchanged, so `replace` alters only
-- the fields that it names.
use codepilot_stable.Base.{
  ◌≡◌, String, ℕ, arith, List, [], ◌∷◌, refl, sym, ap, ◌∙◌, ◌≤◌, suc, false, length, count,
  from_keys, ok, on_ok, ok_injective, traverse, >>=-eq-ok,
}
use mathlib.Core.Path.{subst}
use codepilot_stable.Base.Dedup.{NoRepeats, from_keys_idem, from_keys-length-NoRepeats}
use codepilot_stable.Base.Fixed.{traverse-AllFixed, AllFixed-traverse, AllFixed-from_keys}
use codepilot_stable.Text.{collapse, is_empty}
use codepilot_stable.Text.Words.{collapse_idem, eq_of_is_empty}
use codepilot_stable.Plan.{
  PlanDefinition, PlanStep, PlanState, optional_text, or_empty, required_text, text_tuple,
  init_definition, init_step, validate_steps, init_plan, step_ids, is_in_progress,
}

pub required_text_idem : (v t : String) → required_text v ≡ ok t → required_text t ≡ ok t
unfolding required_text
required_text_idem v t h = ground (arith, collapse_idem v)

pub or_empty-optional_text : (v : String) → or_empty (optional_text v) ≡ collapse v
unfolding optional_text
or_empty-optional_text v = ground (arith, eq_of_is_empty (collapse v))

pub or_empty_idem :
    (v : String)
    → or_empty (optional_text (or_empty (optional_text v))) ≡ or_empty (optional_text v)
or_empty_idem v = simp (or_empty-optional_text, collapse_idem)

pub text_tuple_idem :
    (lo hi : ℕ) (vs ts : List String) → text_tuple lo hi vs ≡ ok ts → text_tuple lo hi ts ≡ ok ts
unfolding text_tuple
text_tuple_idem lo hi vs ts h =
    let (texts, e, h') = >>=-eq-ok (traverse required_text vs) _ h in
    let same : from_keys texts ≡ ts = ground arith in
    let fixed =
      AllFixed-from_keys required_text texts
        (AllFixed-traverse required_text required_text_idem vs texts e) in
    let once = from_keys_idem texts in
    let again = traverse-AllFixed required_text (from_keys texts) fixed in ground arith

-- A plan definition that has been made stays as it is when it is made again: reading back what was
-- checked once passes every check and changes no text.
pub init_definition_idem :
    (d e : PlanDefinition) → init_definition d ≡ ok e → init_definition e ≡ ok e
unfolding init_definition
init_definition_idem d e h = ground (
  arith,
  required_text_idem d.summary e.summary,
  text_tuple_idem 1 5 d.completion_criteria e.completion_criteria,
  text_tuple_idem 0 8 d.risks_and_open_questions e.risks_and_open_questions,
  or_empty_idem d.task_understanding,
  or_empty_idem d.current_implementation,
  or_empty_idem d.target_design,
  or_empty_idem d.impact_scope,
  or_empty_idem d.verification_plan,
  or_empty_idem d.explanation,
)

-- A plan step that has been made stays as it is when it is made again.
pub init_step_idem : (s t : PlanStep) → init_step s ≡ ok t → init_step t ≡ ok t
unfolding init_step
init_step_idem s t h = ground (
  arith,
  required_text_idem s.step_id t.step_id,
  required_text_idem s.step t.step,
  required_text_idem s.details t.details,
  required_text_idem s.verification t.verification,
  text_tuple_idem 0 64 s.evidence_refs t.evidence_refs,
  or_empty_idem s.completion_note,
)

pub validate_steps_idem :
    (steps kept : List PlanStep) → validate_steps steps ≡ ok kept → validate_steps kept ≡ ok kept
unfolding validate_steps
validate_steps_idem steps kept h = ground arith

init_plan_idem : (p q : PlanState) → init_plan p ≡ ok q → init_plan q ≡ ok q
unfolding init_plan
init_plan_idem p q h =
    ground (arith, required_text_idem p.plan_id q.plan_id, validate_steps_idem p.steps q.steps)

-- One to twenty steps, no two of one id, and at most one in progress, under an id that is a text.
abbrev pub IsValid : PlanState → Type 0
IsValid plan =
    (is_empty plan.plan_id ≡ false)
    × (1 ≤ length plan.steps)
    × (length plan.steps ≤ 20)
    × NoRepeats (step_ids plan.steps)
    × (count is_in_progress plan.steps ≤ 1)

length-step_ids : (steps : List PlanStep) → length (step_ids steps) ≡ length steps
length-step_ids [] = refl
length-step_ids (s ∷ steps) = ap (λ n. suc n) (length-step_ids steps)

validate_steps-ok :
    (steps kept : List PlanStep)
    → validate_steps steps ≡ ok kept
    → (kept ≡ steps)
      × (1 ≤ length steps)
      × (length steps ≤ 20)
      × (length (from_keys (step_ids steps)) ≡ length steps)
      × (count is_in_progress steps ≤ 1)
unfolding validate_steps
validate_steps-ok steps kept h =
    (ground arith, ground arith, ground arith, ground arith, ground arith)

required_text-ok : (v t : String) → required_text v ≡ ok t → (t ≡ collapse v) × (is_empty t ≡ false)
unfolding required_text optional_text
required_text-ok v t h = (ground arith, ground arith)

-- A plan that has been made is valid: its id is not empty, it has one to twenty steps, no two steps
-- have the same id, and at most one step is in progress. It is the plan that was given, with the
-- blanks of its id collapsed, and it passes the checks again and stays as it is.
pub init_plan-IsValid :
    (p q : PlanState)
    → init_plan p ≡ ok q
    → IsValid q × (q ≡ record p { plan_id = collapse p.plan_id }) × (init_plan q ≡ ok q)
unfolding init_plan
init_plan-IsValid p q h = on_ok (required_text p.plan_id) _ h (λ id e1 h1.
    on_ok (validate_steps p.steps) _ h1 (λ steps e2 h2.
      let named = required_text-ok p.plan_id id e1 in
      let (same, some_steps, few, unique, one) = validate_steps-ok p.steps steps e2 in
      let distinct =
        from_keys-length-NoRepeats (step_ids p.steps) (unique ∙ sym (length-step_ids p.steps)) in
      let made : record p { plan_id = id; steps = steps } ≡ q = ok_injective h2 in
      let kept : q ≡ record p { plan_id = id } =
        sym made ∙ ap (λ (l : List PlanStep). record p { plan_id = id; steps = l }) same in
      (
        subst IsValid (sym kept) (named.1, some_steps, few, distinct, one),
        kept ∙ ap (λ (x : String). record p { plan_id = x }) named.0,
        init_plan_idem p q h,
      )))
