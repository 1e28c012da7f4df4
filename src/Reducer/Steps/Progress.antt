-- ===== src/Reducer/Steps/Progress.antt =====
-- A progress update changes no step but in its status, note and evidence.
use codepilot_stable.Base.{
  ◌≡◌, refl, ap, ◌∙◌, String, Bool, true, false, ◌&&◌, not, Option, none, some, List, [], ◌∷◌, map,
  eq_iff, arith, Bool-cases, inl, inr, Result, ok, err,
}
use codepilot_stable.Plan.{
  required_text, PlanStep, PlanStepUpdate, is_completed, step_ids, init_step,
}
use codepilot_stable.Literals.{PlanStepStatus}
use codepilot_stable.Text.{is_empty}
use codepilot_stable.Reducer.Steps.{
  find_last, find_first, get_or, has_id, merge_steps, completes, as_outcome, update_step, done,
}

pub find_first-found :
    (p : PlanStep → Bool) (steps : List PlanStep) (s : PlanStep)
    → find_first p steps ≡ some s
    → p s ≡ true
unfolding find_first
find_first-found p [] s h = ground arith
find_first-found p (x ∷ steps) s h = ground (arith, find_first-found p steps s)

pub find_last-found :
    (p : PlanStep → Bool) (steps : List PlanStep) (s : PlanStep)
    → find_last p steps ≡ some s
    → p s ≡ true
unfolding find_last
find_last-found p [] s h = ground arith
find_last-found p (x ∷ steps) s h = ground (arith, find_last-found p steps s)

pub has_id-eq : (id : String) (s : PlanStep) → has_id id s ≡ true → s.step_id ≡ id
has_id-eq id s h = ground (arith, eq_iff s.step_id id)

got_id :
    (id : String) (o : Option PlanStep) (s : PlanStep)
    → ((found : PlanStep) → o ≡ some found → has_id id found ≡ true)
    → s.step_id ≡ id
    → (get_or o s).step_id ≡ id
got_id id none s h e = e
got_id id (some found) s h e = has_id-eq id found (h found refl)

merged_id :
    (steps written : List PlanStep) (s : PlanStep)
    → (get_or
        (find_first (has_id s.step_id) written)
        (get_or (find_last (has_id s.step_id) steps) s)).step_id
      ≡ s.step_id
merged_id steps written s =
    got_id s.step_id (find_first (has_id s.step_id) written) _
      (find_first-found (has_id s.step_id) written)
      (got_id s.step_id (find_last (has_id s.step_id) steps) s
        (find_last-found (has_id s.step_id) steps) refl)

merged_ids :
    (steps written some_steps : List PlanStep)
    → step_ids (
        map
          (λ s.
            get_or
              (find_first (has_id s.step_id) written)
              (get_or (find_last (has_id s.step_id) steps) s))
          some_steps)
      ≡ step_ids some_steps
merged_ids steps written [] = refl
merged_ids steps written (s ∷ rest) =
    rw (merged_id steps written s, merged_ids steps written rest) refl

-- Writing back the updated steps keeps the ids of the plan's steps and their order.
pub step_ids-merge_steps :
    (steps written : List PlanStep) → step_ids (merge_steps steps written) ≡ step_ids steps
unfolding merge_steps
step_ids-merge_steps steps written = merged_ids steps written steps

-- the fields of a step that `init_step` lets pass
init_step_kept :
    (a b : PlanStep)
    → init_step a ≡ ok b
    → (b.status ≡ a.status) × (required_text a.step_id ≡ ok b.step_id)
unfolding init_step
init_step_kept a b h = ground arith

as_outcome-done : (m : Result PlanStep) (s : PlanStep) → as_outcome m ≡ done s → m ≡ ok s
as_outcome-done (ok t) s h = ground arith
as_outcome-done (err e) s h = ground arith

-- what an accepted update makes of a step
pub update_step_kept :
    (known : List String) (previous s : PlanStep) (u : PlanStepUpdate)
    → update_step known previous u ≡ done s
    → (s.status ≡ u.status)
      × (required_text previous.step_id ≡ ok s.step_id)
      × ((is_completed previous && not (completes u)) ≡ false)
unfolding update_step
update_step_kept known previous s u h =
    elim (Bool-cases (is_completed previous && not (completes u))) [
      | inl back ↦ absurd (ground arith)
      | inr fine ↦ elim (Bool-cases (completes u && is_empty u.completion_note)) [
        | inl bare ↦ absurd (ground arith)
        | inr noted ↦
            let kept =
              init_step_kept _ s (as_outcome-done _ s (rw (fine, noted, update_step) at h)) in
            (kept.0, kept.1, fine)
      ]
    ]

second_of : (p q : Bool) → (p && not q) ≡ false → p ≡ true → q ≡ true
second_of p q h k = ground arith

-- An accepted update of a completed step leaves it completed.
pub update_step_completed :
    (known : List String) (previous s : PlanStep) (u : PlanStepUpdate)
    → update_step known previous u ≡ done s
    → is_completed previous ≡ true
    → is_completed s ≡ true
update_step_completed known previous s u h e =
    let (status, id, fine) = update_step_kept known previous s u h in
    ap (λ (x : PlanStepStatus). elim x [ PlanStepStatus.completed ↦ true | _ ↦ false ]) status
    ∙ second_of (is_completed previous) (completes u) fine e
