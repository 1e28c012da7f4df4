-- ===== src/Reducer/Lifecycle/Plans.antt =====
-- Submitting, progress, revisions and the request to close move the plan along its edges.
use Prim.Native.String.{◌++◌}
use codepilot_stable.Base.{
  ◌≡◌, refl, ◌∙◌, ℕ, ◌+◌, String, false, ◌||◌, not, Option, none, some, List, [], ◌∷◌, all, count,
  ltb, Result, ok, err, arith, >>=-eq-ok, Bool-cases, inl, inr,
}
use codepilot_stable.Literals.{RunMode, PlanRevisionReason, plan_incomplete, replan_required}
use codepilot_stable.Plan.{
  PlanState, PlanDefinition, PlanStepDefinition, PlanStepUpdate, PlanStep, is_completed,
  is_in_progress, init_plan, init_close_request, init_pending_revision, require_plan_mode_details,
}
use codepilot_stable.State.{CoreState, is_none}
use codepilot_stable.Commands.{submit_plan}
use codepilot_stable.Events.{Payload}
use codepilot_stable.Reducer.Facts.{CoreReduction, with_plan}
use codepilot_stable.Reducer.Evidence.{known_evidence}
use codepilot_stable.Reducer.Steps.{
  new_steps, preserve_matching_steps, update_steps, merge_steps, Outcome, reject, done,
}
use codepilot_stable.Reducer.Replies.{plan_is_proposed}
use codepilot_stable.Reducer.PlanCommands.{
  submit_first, submit_again, submit_allowed, reduce_submit_plan, store_progress, has_unknown_step,
  update_progress, revised_plan, propose_revision, request_close, is_plan_mode, first_status,
  origin_of, status_text,
}
use codepilot_stable.Reducer.Lifecycle.{
  PlanEdge, propose, start, same, Moved, rejected-Moved, refused-Moved, stored-Moved,
  unblocked-Moved, applied_without, plan-with_plan, Committed-Moved,
}

revised_plan_fields :
    (s : CoreState) (plan : PlanState) (reason : PlanRevisionReason) (definition : PlanDefinition)
    (merged : List PlanStep) (q : PlanState)
    → revised_plan s plan reason definition merged ≡ ok q
    → (q.status ≡ plan.status) × (q.revision ≡ plan.revision + 1)
unfolding revised_plan init_plan init_pending_revision
revised_plan_fields s plan reason definition merged q h = ground arith

module _ (s : CoreState) (id : String) (revision : ℕ) (plan : PlanState) (r : CoreReduction)
    (here : s.task.plan ≡ some plan) where
  pub request_close-Moved :
      (summary : String) (refs : List String)
      → request_close s id revision summary refs plan ≡ ok r
      → Moved (some plan) r.state.task.plan
  unfolding request_close
  request_close-Moved summary refs h = elim (Bool-cases (all is_completed plan.steps)) [
    | inl e ↦
        let (request, e1, h1) = >>=-eq-ok (init_close_request _) _ (rw e at h) in
        stored-Moved s (some plan)
          (record plan { close_request = some request; revision = plan.revision + 1 }) _ _ _ r refl
          same h1
    | inr e ↦ refused-Moved s plan _ _ r here (rw e at h)
  ]

  store_progress-Moved :
      (updates : List PlanStepUpdate) (written : List PlanStep)
      → store_progress s id revision updates plan written ≡ ok r
      → Moved (some plan) r.state.task.plan
  unfolding store_progress
  store_progress-Moved updates written h =
      elim (Bool-cases (ltb 1 (count is_in_progress (merge_steps plan.steps written)))) [
        | inl e ↦ refused-Moved s plan _ _ r here (rw e at h)
        | inr e ↦
            unblocked-Moved s (some plan)
              (record plan {
                steps = merge_steps plan.steps written;
                revision = plan.revision + 1;
                close_request = none;
              })
              replan_required _ _ _ r refl same (rw e at h)
      ]

  progress_outcome-Moved :
      (updates : List PlanStepUpdate) (out : Outcome (List PlanStep))
      → update_steps (known_evidence s) plan.steps updates [] ≡ out
      → has_unknown_step plan updates ≡ false
      → update_progress s id revision updates plan ≡ ok r
      → Moved (some plan) r.state.task.plan
  unfolding update_progress
  progress_outcome-Moved updates (reject reason) e known h =
      refused-Moved s plan _ _ r here (rw (known, e, update_progress) at h)
  progress_outcome-Moved updates (done written) e known h =
      store_progress-Moved updates written (rw (known, e, update_progress) at h)

  pub update_progress-Moved :
      (updates : List PlanStepUpdate)
      → update_progress s id revision updates plan ≡ ok r
      → Moved (some plan) r.state.task.plan
  unfolding update_progress
  update_progress-Moved updates h = elim (Bool-cases (has_unknown_step plan updates)) [
    | inl bad ↦ refused-Moved s plan _ _ r here (rw bad at h)
    | inr known ↦
        progress_outcome-Moved updates (update_steps (known_evidence s) plan.steps updates []) refl
          known h
  ]

  pub propose_revision-Moved :
      (reason : PlanRevisionReason) (definition : PlanDefinition)
      (definitions : List PlanStepDefinition)
      → propose_revision s id revision reason definition definitions plan ≡ ok r
      → Moved (some plan) r.state.task.plan
  unfolding propose_revision
  propose_revision-Moved reason definition definitions h =
      elim (Bool-cases (is_none plan.pending_revision)) [
        | inr e ↦ refused-Moved s plan _ _ r here (rw e at h)
        | inl e ↦
            let (replacement, e1, h1) = >>=-eq-ok (new_steps _ 1 definitions) _ (rw e at h) in
            let merged = preserve_matching_steps plan.steps replacement in
            let (q, e2, h2) = >>=-eq-ok (revised_plan s plan reason definition merged) _ h1 in
            let (t, e3, h3) = >>=-eq-ok (with_plan s q) _ h2 in
            let (status, next) = revised_plan_fields s plan reason definition merged q e2 in
            Committed-Moved (some plan) q _
              (
                q,
                applied_without t replan_required _ _ _ r h3 ∙ plan-with_plan s t q e3,
                refl,
                refl,
              )
              next (rw status same)
      ]

edge_of_first : (mode : RunMode) → PlanEdge none (some (first_status mode))
edge_of_first RunMode.plan = propose
edge_of_first _ = start

module _ (s : CoreState) (id : String) (definition : PlanDefinition)
    (definitions : List PlanStepDefinition) (r : CoreReduction) where
  submit_first-Moved :
      (mode : RunMode)
      → submit_first s id definition definitions mode ≡ ok r
      → Moved none r.state.task.plan
  unfolding submit_first
  submit_first-Moved mode h =
      let (steps, e, h1) = >>=-eq-ok (new_steps _ 1 definitions) _ h in
      unblocked-Moved s none
        (record {
          plan_id = "plan:" ++ id;
          origin = origin_of mode;
          status = first_status mode;
          revision = 1;
          definition = definition;
          steps = steps;
          pending_revision = none;
          close_request = none;
        })
        plan_incomplete (submit_plan id definition definitions) "plan_submitted"
        (λ plan.
          ("plan_id", Payload.text plan.plan_id)
          ∷ ("status", Payload.text (status_text plan.status))
          ∷ ("revision", Payload.number plan.revision)
          ∷ [])
        r refl (edge_of_first mode) h1

  submit_again-Moved :
      (current : PlanState)
      → submit_again s id definition definitions current ≡ ok r
      → Moved (some current) r.state.task.plan
  unfolding submit_again
  submit_again-Moved current h =
      let (replacement, e, h1) = >>=-eq-ok (new_steps current.plan_id 1 definitions) _ h in
      unblocked-Moved s (some current)
        (record current {
          definition = definition;
          steps = preserve_matching_steps current.steps replacement;
          revision = current.revision + 1;
          pending_revision = none;
          close_request = none;
        })
        plan_incomplete _ _ _ r refl same h1

  submit_to-Moved :
      (mode : RunMode) (o : Option PlanState)
      → s.task.plan ≡ o
      → submit_allowed s id definition definitions mode ≡ ok r
      → Moved o r.state.task.plan
  unfolding submit_allowed
  submit_to-Moved mode none e h = submit_first-Moved mode (rw (e, submit_allowed) at h)
  submit_to-Moved mode (some current) e h =
      let h' = rw (e, submit_allowed) at h in
      elim (Bool-cases (not (is_plan_mode mode) || not (plan_is_proposed current))) [
        | inl closed ↦ refused-Moved s current _ _ r e (rw closed at h')
        | inr allowed ↦ submit_again-Moved current (rw allowed at h')
      ]

  submit_plan_mode-Moved :
      (details : Result (Unit {0}))
      → require_plan_mode_details definition ≡ details
      → reduce_submit_plan s id definition definitions RunMode.plan ≡ ok r
      → Moved s.task.plan r.state.task.plan
  unfolding reduce_submit_plan
  submit_plan_mode-Moved (ok _) e h =
      submit_to-Moved RunMode.plan s.task.plan refl (rw (e, reduce_submit_plan) at h)
  submit_plan_mode-Moved (err _) e h =
      rejected-Moved s (submit_plan id definition definitions) "plan.definition_incomplete" r
        (rw (e, reduce_submit_plan) at h)

  pub reduce_submit_plan-Moved :
      (mode : RunMode)
      → reduce_submit_plan s id definition definitions mode ≡ ok r
      → Moved s.task.plan r.state.task.plan
  unfolding reduce_submit_plan
  reduce_submit_plan-Moved RunMode.read h =
      rejected-Moved s (submit_plan id definition definitions) "plan.read_only" r h
  reduce_submit_plan-Moved RunMode.plan h =
      submit_plan_mode-Moved (require_plan_mode_details definition) refl h
  reduce_submit_plan-Moved RunMode.build h = submit_to-Moved RunMode.build s.task.plan refl h
