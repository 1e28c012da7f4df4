-- ===== src/Reducer/Steps/Completed.antt =====
-- No completed step is undone by a progress update.
use codepilot_stable.Base.{
  ◌≡◌, refl, sym, ap, ◌∙◌, String, Bool, true, false, ◌||◌, not, all, ok_injective, Option, none,
  some, List, [], ◌∷◌, map, arith, ok,
}
use codepilot_stable.Plan.{required_text, PlanStep, PlanStepUpdate, is_completed, step_ids}
use codepilot_stable.Base.Fixed.{AllFixed}
use codepilot_stable.Reducer.Steps.{
  find_last, find_first, get_or, has_id, merge_steps, update_step, update_steps, Outcome, reject,
  done,
}
use codepilot_stable.Reducer.Steps.Progress.{
  find_last-found, has_id-eq, update_step_kept, update_step_completed,
}

abbrev kept_by : Option PlanStep → PlanStep → Bool
kept_by none s = true
kept_by (some previous) s = not (is_completed previous) || is_completed s

implies : (p q : Bool) → (p ≡ true → q ≡ true) → (not p || q) ≡ true
implies true q h = h refl
implies false q h = refl

-- A step that is completed if it was completed among the given steps, by its id.
abbrev pub keeps : List PlanStep → PlanStep → Bool
keeps steps s = kept_by (find_last (has_id s.step_id) steps) s

find_last-fixed :
    (p : PlanStep → Bool) (steps : List PlanStep) (s : PlanStep)
    → AllFixed required_text (step_ids steps)
    → find_last p steps ≡ some s
    → required_text s.step_id ≡ ok s.step_id
unfolding find_last
find_last-fixed p [] s f h = ground arith
find_last-fixed p (x ∷ steps) s f h = ground (arith, find_last-fixed p steps s f.1, f.0)

updated_id :
    (known : List String) (steps : List PlanStep) (previous s : PlanStep) (u : PlanStepUpdate)
    → AllFixed required_text (step_ids steps)
    → find_last (has_id u.step_id) steps ≡ some previous
    → update_step known previous u ≡ done s
    → s.step_id ≡ u.step_id
updated_id known steps previous s u f e h =
    let fixed = find_last-fixed (has_id u.step_id) steps previous f e in
    let (status, id, fine) = update_step_kept known previous s u h in
    let found = find_last-found (has_id u.step_id) steps previous e in
    sym (ok_injective (sym fixed ∙ id)) ∙ has_id-eq u.step_id previous found

updated_keeps :
    (known : List String) (steps : List PlanStep) (previous s : PlanStep) (u : PlanStepUpdate)
    → AllFixed required_text (step_ids steps)
    → find_last (has_id u.step_id) steps ≡ some previous
    → update_step known previous u ≡ done s
    → keeps steps s ≡ true
updated_keeps known steps previous s u f e h =
    ap (λ id. kept_by (find_last (has_id id) steps) s) (updated_id known steps previous s u f e h)
    ∙ (ap (λ o. kept_by o s) e ∙ implies _ _ (update_step_completed known previous s u h))

done_injective : (xs ys : List PlanStep) → done xs ≡ done ys → xs ≡ ys
done_injective xs ys h = cc

module _ (known : List String) (steps : List PlanStep)
    (f : AllFixed required_text (step_ids steps)) where
  abbrev Rest : List PlanStepUpdate → List PlanStep → List PlanStep → Type 0
  Rest updates written out =
      (s : PlanStep)
      → keeps steps s ≡ true
      → update_steps known steps updates (s ∷ written) ≡ done out
      → all (keeps steps) out ≡ true

  -- one round of the loop, by what the update makes of the step that it names
  round_written :
      (u : PlanStepUpdate) (updates : List PlanStepUpdate) (written out : List PlanStep)
      (previous : PlanStep)
      → Rest updates written out
      → find_last (has_id u.step_id) steps ≡ some previous
      → (result : Outcome PlanStep) → update_step known previous u ≡ result
      → update_steps known steps (u ∷ updates) written ≡ done out
      → all (keeps steps) out ≡ true
  unfolding update_steps
  round_written u updates written out previous rest e (reject reason) e1 h =
      let h1 = rw (e, e1, update_steps) at h in cc
  round_written u updates written out previous rest e (done s) e1 h =
      rest s (updated_keeps known steps previous s u f e e1) (rw (e, e1, update_steps) at h)

  round_found :
      (u : PlanStepUpdate) (updates : List PlanStepUpdate) (written out : List PlanStep)
      → Rest updates written out
      → (o : Option PlanStep) → find_last (has_id u.step_id) steps ≡ o
      → update_steps known steps (u ∷ updates) written ≡ done out
      → all (keeps steps) out ≡ true
  unfolding update_steps
  round_found u updates written out rest none e h = let h1 = rw (e, update_steps) at h in cc
  round_found u updates written out rest (some previous) e h =
      round_written u updates written out previous rest e _ refl h

  -- the loop
  pub update_steps_keeps :
      (updates : List PlanStepUpdate) (written out : List PlanStep)
      → all (keeps steps) written ≡ true
      → update_steps known steps updates written ≡ done out
      → all (keeps steps) out ≡ true
  unfolding update_steps all
  update_steps_keeps [] written out k h =
      ap (all (keeps steps)) (sym (done_injective written out h)) ∙ k
  update_steps_keeps (u ∷ updates) written out k h =
      round_found u updates written out
        (λ s kept h1. update_steps_keeps updates (s ∷ written) out (ground arith) h1) _ refl h

found_keeps :
    (steps written : List PlanStep) (p : PlanStep → Bool) (s : PlanStep)
    → all (keeps steps) written ≡ true
    → find_first p written ≡ some s
    → keeps steps s ≡ true
unfolding find_first all
found_keeps steps [] p s k h = ground arith
found_keeps steps (x ∷ written) p s k h = ground (arith, found_keeps steps written p s)

-- a step of the plan as it is written back
back_keeps :
    (steps written : List PlanStep) (s : PlanStep)
    → all (keeps steps) written ≡ true
    → (o o' : Option PlanStep) → find_first (has_id s.step_id) written ≡ o
    → find_last (has_id s.step_id) steps ≡ o'
    → keeps steps (get_or o (get_or o' s)) ≡ true
back_keeps steps written s k (some x) o' e e' = found_keeps steps written _ x k e
back_keeps steps written s k none none e e' = ap (λ o. kept_by o s) e'
back_keeps steps written s k none (some x) e e' =
    ap (λ id. kept_by (find_last (has_id id) steps) x)
      (has_id-eq s.step_id x (find_last-found (has_id s.step_id) steps x e'))
    ∙ (ap (λ o. kept_by o x) e' ∙ implies (is_completed x) (is_completed x) (λ c. c))

all_back :
    (steps written some_steps : List PlanStep)
    → all (keeps steps) written ≡ true
    → all (keeps steps) (
        map
          (λ s.
            get_or
              (find_first (has_id s.step_id) written)
              (get_or (find_last (has_id s.step_id) steps) s))
          some_steps)
      ≡ true
unfolding all
all_back steps written [] k = refl
all_back steps written (s ∷ rest) k =
    let first = back_keeps steps written s k _ _ refl refl in
    rw (first, all_back steps written rest k) refl

-- Writing back updated steps leaves every completed step completed.
pub merge_steps_keeps :
    (steps written : List PlanStep)
    → all (keeps steps) written ≡ true
    → all (keeps steps) (merge_steps steps written) ≡ true
unfolding merge_steps
merge_steps_keeps steps written k = all_back steps written steps k
