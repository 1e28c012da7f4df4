-- ===== src/Reducer/Lifecycle/History.antt =====
-- The life of a plan over a whole run: every observation and every decision.
use codepilot_stable.Base.{
  ◌≡◌, refl, sym, ap, ◌∙◌, ◌+◌, ◌&&◌, ◌||◌, all, Option, none, some, [], contains, ok, arith, on_ok,
  ok_injective, Bool-cases, inl, inr,
}
use mathlib.Core.Path.{subst}
use codepilot_stable.Literals.{RunMode, PlanStatus, TerminationStatus}
use codepilot_stable.Plan.{PlanState, is_completed, init_plan}
use codepilot_stable.State.{
  CoreState, TaskState, FailureRecord, init_task, init_failure, init_loop_guards, plan_is_active,
}
use codepilot_stable.Events.{CoreDomainEvent, event}
use codepilot_stable.Observations.{
  ModelObservation, ToolBatchObservation, UserInputObservation, CancellationObservation,
  CoreObservation, model, tool_batch, user_input, core_command, cancellation, observation_id,
}
use codepilot_stable.Contracts.{CoreDecision, call_model, execute_tools, wait, terminate}
use codepilot_stable.Reducer.Facts.{CoreReduction, record_failure, mark_seen, reset_no_progress}
use codepilot_stable.Reducer.Replies.{plan_is_proposed}
use codepilot_stable.Reducer.ToolBatch.{reduce_tools}
use codepilot_stable.Reducer.Observe.{
  model_failure, input_blockers, note_failure, reduce_model, reduce_user_input, reduce_cancellation,
  reduce_kind, reduce_observation,
}
use codepilot_stable.Reducer.Decision.{
  settle_plan, settle_option, apply_terminate, apply_recovery, apply_decision,
}
use codepilot_stable.Reducer.Lifecycle.{
  Moved, Committed, complete, Committed-Moved, active_of, init_plan_fields,
}
use codepilot_stable.Reducer.Lifecycle.Approvals.{abandon_edge}
use codepilot_stable.Reducer.Lifecycle.Batches.{plan-record_failure, reduce_material-Evolves}
use codepilot_stable.Reducer.Lifecycle.Runs.{
  Evolves, here, onward, task-mark_seen, apply_core_command-Moved,
}

still : {o p : Option PlanState} → p ≡ o → Evolves o p
still {o} e = subst (λ p. Evolves o p) (sym e) here

once : {o p : Option PlanState} → Moved o p → Evolves o p
once m = onward m here

plan-note_failure :
    (s : CoreState) (e : CoreDomainEvent) (f : Option FailureRecord) (r : CoreReduction)
    → note_failure s e f ≡ ok r
    → r.state.task ≡ s.task
unfolding note_failure
plan-note_failure s e none r h = ground arith
plan-note_failure s e (some f) r h =
    on_ok (record_failure s f) _ h λ t e1 h1. ground (arith, plan-record_failure s t f e1)

plan-reduce_model :
    (s : CoreState) (o : ModelObservation) (r : CoreReduction)
    → reduce_model s o ≡ ok r
    → r.state.task ≡ s.task
unfolding reduce_model
plan-reduce_model s o r h = on_ok (init_loop_guards _) _ h λ guards e1 h1.
    on_ok (event "model_observed" [] []) _ h1 λ observed e2 h2.
      on_ok (model_failure o) _ h2 λ failure e3 h3. plan-note_failure _ observed failure r h3

plan-reduce_user_input :
    (s : CoreState) (o : UserInputObservation) (r : CoreReduction)
    → reduce_user_input s o ≡ ok r
    → r.state.task.plan ≡ s.task.plan
unfolding reduce_user_input reset_no_progress init_task
plan-reduce_user_input s o r h = on_ok (input_blockers s o) _ h λ blockers e1 h1.
    on_ok (init_task _) _ h1 λ task e2 h2.
      on_ok (reset_no_progress (record s { task = task })) _ h2 λ t e3 h3. ground arith

plan-reduce_cancellation :
    (s : CoreState) (o : CancellationObservation) (r : CoreReduction)
    → reduce_cancellation s o ≡ ok r
    → r.state.task ≡ s.task
unfolding reduce_cancellation
plan-reduce_cancellation s o r h = on_ok (init_failure _) _ h λ f e1 h1.
    on_ok (record_failure s f) _ h1 λ t e2 h2. ground (arith, plan-record_failure s t f e2)

reduce_tools-Evolves :
    (s : CoreState) (o : ToolBatchObservation) (mode : RunMode) (r : CoreReduction)
    → reduce_tools s o mode ≡ ok r
    → Evolves s.task.plan r.state.task.plan
unfolding reduce_tools
reduce_tools-Evolves s o mode r h = reduce_material-Evolves s o _ mode r h

reduce_kind-Evolves :
    (s : CoreState) (o : CoreObservation) (mode : RunMode) (r : CoreReduction)
    → reduce_kind s o mode ≡ ok r
    → Evolves s.task.plan r.state.task.plan
unfolding reduce_kind
reduce_kind-Evolves s (model o) mode r h = still (ap (λ t. t.plan) (plan-reduce_model s o r h))
reduce_kind-Evolves s (tool_batch o) mode r h = reduce_tools-Evolves s o mode r h
reduce_kind-Evolves s (user_input o) mode r h = still (plan-reduce_user_input s o r h)
reduce_kind-Evolves s (core_command id c) mode r h = once (apply_core_command-Moved s c mode r h)
reduce_kind-Evolves s (cancellation o) mode r h =
    still (ap (λ t. t.plan) (plan-reduce_cancellation s o r h))

-- Whatever is observed, the plan goes along a path of the plan's life.
pub reduce_observation-Evolves :
    (s : CoreState) (o : CoreObservation) (mode : RunMode) (r : CoreReduction)
    → reduce_observation s o mode ≡ ok r
    → Evolves s.task.plan r.state.task.plan
unfolding reduce_observation
reduce_observation-Evolves s o mode r h =
    elim (Bool-cases
      (contains (observation_id o) s.facts.observation_ledger.applied_observation_ids)) [
        | inl seen ↦ still (ground arith)
        | inr fresh ↦ on_ok (reduce_kind s o mode) _ (rw fresh at h) λ first e h1.
            on_ok (mark_seen first.state (observation_id o)) _ h1 λ t e1 h2.
              let last : t.task.plan ≡ r.state.task.plan =
                ap (λ x. x.state.task.plan) (ok_injective h2) in
              subst (λ p. Evolves s.task.plan p)
                (sym (ap (λ x. x.plan) (task-mark_seen first.state t (observation_id o) e1)) ∙ last)
                (reduce_kind-Evolves s o mode first e)
      ]

init_plan-Committed : (x q : PlanState) → init_plan x ≡ ok q → Committed x (some q)
init_plan-Committed x q h =
    let (status, revision) = init_plan_fields x q h in (q, refl, status, revision)

plan-init_task : (t u : TaskState) → init_task t ≡ ok u → u.plan ≡ t.plan
unfolding init_task
plan-init_task t u h = ground arith

-- a proposed or active plan of a task that fails or is cancelled
settle_left :
    (p q : PlanState) → settle_plan TerminationStatus.failed p ≡ ok q → Moved (some p) (some q)
unfolding settle_plan
settle_left p q h = elim (Bool-cases (plan_is_proposed p || plan_is_active p)) [
  | inl e ↦
      Committed-Moved (some p)
        (record p {
          status = PlanStatus.abandoned;
          pending_revision = none;
          close_request = none;
          revision = p.revision + 1;
        })
        (some q) (init_plan-Committed _ q (rw e at h)) refl (abandon_edge p e)
  | inr e ↦ inl (ap some (sym (ok_injective (rw e at h))))
]

-- A task that ends with a terminal decision takes its plan along an edge of the plan's life.
settle_plan-Moved :
    (status : TerminationStatus) (p q : PlanState)
    → settle_plan status p ≡ ok q
    → Moved (some p) (some q)
unfolding settle_plan
settle_plan-Moved TerminationStatus.completed p q h =
    elim (Bool-cases (plan_is_active p && all is_completed p.steps)) [
      | inl e ↦
          Committed-Moved (some p)
            (record p { status = PlanStatus.completed; revision = p.revision + 1 }) (some q)
            (init_plan-Committed _ q (rw e at h)) refl (rw (active_of p (ground arith)) complete)
      | inr e ↦ inl (ap some (sym (ok_injective (rw e at h))))
    ]
settle_plan-Moved TerminationStatus.failed p q h = settle_left p q h
settle_plan-Moved TerminationStatus.cancelled p q h = settle_left p q h

settle_option-Moved :
    (status : TerminationStatus) (o : Option PlanState) (p : Option PlanState)
    → settle_option status o ≡ ok p
    → Moved o p
settle_option-Moved status none p h = inl (sym (ok_injective h))
settle_option-Moved status (some plan) p h =
    on_ok (settle_plan status plan) _ h λ q e h1.
      subst (λ x. Moved (some plan) x) (ok_injective h1) (settle_plan-Moved status plan q e)

-- A decision, of whatever kind, moves the plan along at most one edge.
pub apply_decision-Moved :
    (s : CoreState) (d : CoreDecision) (r : CoreReduction)
    → apply_decision s d ≡ ok r
    → Moved s.task.plan r.state.task.plan
unfolding apply_decision apply_terminate apply_recovery
apply_decision-Moved s (call_model purpose directive reason) r h = inl (ground arith)
apply_decision-Moved s (execute_tools calls reason) r h = inl (ground arith)
apply_decision-Moved s (wait w) r h = inl (ground arith)
apply_decision-Moved s (terminate status code message refs) r h =
    on_ok (settle_option status s.task.plan) _ h λ p e h1. on_ok (init_task _) _ h1 λ task e1 h2.
      on_ok (event _ _ _) _ h2 λ ended e2 h3.
        let last : task.plan ≡ r.state.task.plan = ap (λ x. x.state.task.plan) (ok_injective h3) in
        subst (λ x. Moved s.task.plan x) (sym (plan-init_task _ task e1) ∙ last)
          (settle_option-Moved status s.task.plan p e)
