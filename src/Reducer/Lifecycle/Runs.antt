-- ===== src/Reducer/Lifecycle/Runs.antt =====
-- A command moves the plan along at most one edge, and a sequence of commands along a path.
use codepilot_stable.Base.{
  ◌≡◌, refl, ℕ, String, ◌||◌, not, Option, some, List, [], ◌∷◌, length, ltb, contains, Result, ok,
  arith, >>=-eq-ok, Bool-cases, inl, inr,
}
use codepilot_stable.Literals.{RunMode, verification_failed}
use codepilot_stable.Plan.{PlanState}
use codepilot_stable.State.{CoreState, init_verification}
use codepilot_stable.Commands.{
  CoreCommand, submit_plan, update_plan_progress, propose_plan_revision, request_plan_close,
  approve_plan, reject_plan, approve_plan_revision, reject_plan_revision, abandon_plan,
  report_verification_unavailable, command_id,
}
use codepilot_stable.Reducer.Facts.{CoreReduction, mark_seen, remove_blocker}
use codepilot_stable.Reducer.Replies.{
  Checked, problem, found, on_found, plan_revision_problem, active_plan_problem,
}
use codepilot_stable.Reducer.PlanCommands.{
  reduce_update_progress, reduce_propose_revision, reduce_request_close, update_progress,
  propose_revision, request_close,
}
use codepilot_stable.Reducer.Approvals.{
  reduce_approve, reduce_reject, reduce_approve_revision, reduce_reject_revision, reduce_abandon,
  reduce_unavailable, approve, decline, approve_revision, decline_revision, abandon,
}
use codepilot_stable.Reducer.Commands.{reduce_command, apply_core_command, apply_core_commands}
use codepilot_stable.Reducer.Lifecycle.{Moved, rejected-Moved, plan-remove_blocker}
use codepilot_stable.Reducer.Lifecycle.Approvals.{
  approve-Moved, decline-Moved, abandon-Moved, approve_revision-Moved, decline_revision-Moved,
}
use codepilot_stable.Reducer.Lifecycle.Plans.{
  request_close-Moved, update_progress-Moved, propose_revision-Moved, reduce_submit_plan-Moved,
}

-- Any number of moves.
pub data Evolves : Option PlanState → Option PlanState → Type 0 where
  here : {o : Option PlanState} → Evolves o o
  onward : {o p q : Option PlanState} → Moved o p → Evolves p q → Evolves o q

plan_revision_problem-found :
    (o : Option PlanState) (n : ℕ) (p : PlanState)
    → plan_revision_problem o n ≡ found p
    → o ≡ some p
unfolding plan_revision_problem
plan_revision_problem-found o n p h = ground arith

active_plan_problem-found :
    (s : CoreState) (n : ℕ) (mode : RunMode) (p : PlanState)
    → active_plan_problem s n mode ≡ found p
    → s.task.plan ≡ some p
unfolding active_plan_problem
active_plan_problem-found s n mode p h = ground arith

on_found-Moved :
    (s : CoreState) (c : CoreCommand) (checked : Checked) (rest : PlanState → Result CoreReduction)
    (r : CoreReduction)
    → ((p : PlanState) → checked ≡ found p → s.task.plan ≡ some p)
    → ((p : PlanState) → s.task.plan ≡ some p → rest p ≡ ok r → Moved (some p) r.state.task.plan)
    → on_found s c checked rest ≡ ok r
    → Moved s.task.plan r.state.task.plan
on_found-Moved s c (problem reason) rest r is_plan moves h = rejected-Moved s c reason r h
on_found-Moved s c (found p) rest r is_plan moves h =
    rw (is_plan p refl) (moves p (is_plan p refl) h)

reduce_unavailable-Moved :
    (s : CoreState) (id reason : String) (checks refs : List String) (r : CoreReduction)
    → reduce_unavailable s id reason checks refs ≡ ok r
    → Moved s.task.plan r.state.task.plan
unfolding reduce_unavailable
reduce_unavailable-Moved s id reason checks refs r h =
    elim (Bool-cases (not (ltb 0 (length checks)) || not (ltb 0 (length refs)))) [
      | inl bad ↦ rejected-Moved s _ _ r (rw bad at h)
      | inr fine ↦
          let (v, e, h1) = >>=-eq-ok (init_verification _) _ (rw fine at h) in
          let (t, e1, h2) = >>=-eq-ok (remove_blocker _ verification_failed) _ h1 in
          let kept = plan-remove_blocker _ t verification_failed e1 in inl (ground arith)
    ]

module _ (s : CoreState) (mode : RunMode) (r : CoreReduction) where
  by_revision :
      (c : CoreCommand) (n : ℕ) (rest : PlanState → Result CoreReduction)
      → ((p : PlanState) → s.task.plan ≡ some p → rest p ≡ ok r → Moved (some p) r.state.task.plan)
      → on_found s c (plan_revision_problem s.task.plan n) rest ≡ ok r
      → Moved s.task.plan r.state.task.plan
  by_revision c n rest moves h =
      on_found-Moved s c _ rest r (plan_revision_problem-found s.task.plan n) moves h

  by_active :
      (c : CoreCommand) (n : ℕ) (rest : PlanState → Result CoreReduction)
      → ((p : PlanState) → s.task.plan ≡ some p → rest p ≡ ok r → Moved (some p) r.state.task.plan)
      → on_found s c (active_plan_problem s n mode) rest ≡ ok r
      → Moved s.task.plan r.state.task.plan
  by_active c n rest moves h =
      on_found-Moved s c _ rest r (active_plan_problem-found s n mode) moves h

-- A command leaves the plan as it is, or takes its revision one further and its status along an
-- edge of the plan's life.
pub reduce_command-Moved :
    (s : CoreState) (c : CoreCommand) (mode : RunMode) (r : CoreReduction)
    → reduce_command s c mode ≡ ok r
    → Moved s.task.plan r.state.task.plan
unfolding reduce_command reduce_update_progress reduce_propose_revision reduce_request_close
    reduce_approve reduce_reject reduce_approve_revision reduce_reject_revision reduce_abandon
reduce_command-Moved s (submit_plan id definition steps) mode r h =
    reduce_submit_plan-Moved s id definition steps r mode h
reduce_command-Moved s (update_plan_progress id n updates) mode r h =
    by_active s mode r (update_plan_progress id n updates) n (update_progress s id n updates)
      (λ p e k. update_progress-Moved s id n p r e updates k) h
reduce_command-Moved s (propose_plan_revision id n reason definition steps) mode r h =
    by_active s mode r (propose_plan_revision id n reason definition steps) n
      (propose_revision s id n reason definition steps)
      (λ p e k. propose_revision-Moved s id n p r e reason definition steps k) h
reduce_command-Moved s (request_plan_close id n summary refs) mode r h =
    by_active s mode r (request_plan_close id n summary refs) n (request_close s id n summary refs)
      (λ p e k. request_close-Moved s id n p r e summary refs k) h
reduce_command-Moved s (approve_plan id n) mode r h =
    by_revision s mode r (approve_plan id n) n (approve s id n)
      (λ p e k. approve-Moved s id n p r e k) h
reduce_command-Moved s (reject_plan id n reason) mode r h =
    by_revision s mode r (reject_plan id n reason) n (decline s id n reason)
      (λ p e k. decline-Moved s id n p r e reason k) h
reduce_command-Moved s (approve_plan_revision id n) mode r h =
    by_revision s mode r (approve_plan_revision id n) n (approve_revision s id n)
      (λ p e k. approve_revision-Moved s id n p r e k) h
reduce_command-Moved s (reject_plan_revision id n reason) mode r h =
    by_revision s mode r (reject_plan_revision id n reason) n (decline_revision s id n reason)
      (λ p e k. decline_revision-Moved s id n p r e reason k) h
reduce_command-Moved s (abandon_plan id n reason) mode r h =
    by_revision s mode r (abandon_plan id n reason) n (abandon s id n reason)
      (λ p e k. abandon-Moved s id n p r e reason k) h
reduce_command-Moved s (report_verification_unavailable id reason checks refs) mode r h =
    reduce_unavailable-Moved s id reason checks refs r h

pub task-mark_seen : (s t : CoreState) (id : String) → mark_seen s id ≡ ok t → t.task ≡ s.task
unfolding mark_seen
task-mark_seen s t id h = ground arith

pub apply_core_command-Moved :
    (s : CoreState) (c : CoreCommand) (mode : RunMode) (r : CoreReduction)
    → apply_core_command s c mode ≡ ok r
    → Moved s.task.plan r.state.task.plan
unfolding apply_core_command
apply_core_command-Moved s c mode r h =
    elim (Bool-cases (contains (command_id c) s.facts.observation_ledger.applied_observation_ids)) [
      | inl seen ↦ inl (ground arith)
      | inr fresh ↦
          let (first, e, h1) = >>=-eq-ok (reduce_command s c mode) _ (rw fresh at h) in
          let (t, e1, h2) = >>=-eq-ok (mark_seen first.state (command_id c)) _ h1 in
          let kept : r.state.task.plan ≡ first.state.task.plan =
            ground (arith, task-mark_seen first.state t (command_id c)) in
          rw kept (reduce_command-Moved s c mode first e)
    ]

pub apply_core_commands-Evolves :
    (s : CoreState) (cs : List CoreCommand) (mode : RunMode) (r : CoreReduction)
    → apply_core_commands s cs mode ≡ ok r
    → Evolves s.task.plan r.state.task.plan
unfolding apply_core_commands
apply_core_commands-Evolves s [] mode r h =
    let kept : r.state.task.plan ≡ s.task.plan = ground arith in rw kept here
apply_core_commands-Evolves s (c ∷ cs) mode r h =
    let (first, e, h1) = >>=-eq-ok (apply_core_command s c mode) _ h in
    let (rest, e1, h2) = >>=-eq-ok (apply_core_commands first.state cs mode) _ h1 in
    let last : r.state.task.plan ≡ rest.state.task.plan = ground arith in
    onward (apply_core_command-Moved s c mode first e)
      (rw last (apply_core_commands-Evolves first.state cs mode rest e1))
