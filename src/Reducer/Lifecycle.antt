-- ===== src/Reducer/Lifecycle.antt =====
-- The life of a plan: the edges between its statuses, and what the parts of a command do to it.
pub mod Approvals
pub mod Plans
pub mod Runs
pub mod Batches
pub mod History
pub mod Ends
use codepilot_stable.Base.{
  ◌≡◌, refl, sym, ap, ◌∙◌, ℕ, ◌+◌, String, Bool, true, false, not, Option, none, some, List, [],
  ◌∷◌, Result, ok, err, ◌>>=◌, arith, >>=-eq-ok, Bool-cases, inl, inr, ◌⊎◌, if◌then◌else◌,
}
use codepilot_stable.Literals.{RunMode, PlanStatus, TaskBlockerKind}
use codepilot_stable.Plan.{PlanState, init_plan}
use codepilot_stable.State.{CoreState, init_task, plan_is_active}
use codepilot_stable.Commands.{CoreCommand, CommandResult, command_id, command_result}
use codepilot_stable.Events.{Payload, event}
use codepilot_stable.Reducer.Facts.{
  CoreReduction, with_plan, with_blockers, remove_blocker, reset_no_progress,
}
use codepilot_stable.Reducer.Replies.{
  applied_plan_command, reject_command, Checked, problem, found, on_found, require_active,
  plan_revision_problem, active_plan_problem, plan_is_proposed,
}

abbrev pub plan_status : Option PlanState → Option PlanStatus
plan_status none = none
plan_status (some plan) = some plan.status

-- The revision of a plan; there is none before revision 1.
abbrev pub plan_revision : Option PlanState → ℕ
plan_revision none = 0
plan_revision (some plan) = plan.revision

-- the edges of a plan's life: a step to the same status is a change of its content
pub data PlanEdge : Option PlanStatus → Option PlanStatus → Type 0 where
  propose : PlanEdge none (some PlanStatus.proposed)
  start : PlanEdge none (some PlanStatus.active)
  same : {status : PlanStatus} → PlanEdge (some status) (some status)
  approve_edge : PlanEdge (some PlanStatus.proposed) (some PlanStatus.active)
  reject_edge : PlanEdge (some PlanStatus.proposed) (some PlanStatus.rejected)
  withdraw : PlanEdge (some PlanStatus.proposed) (some PlanStatus.abandoned)
  give_up : PlanEdge (some PlanStatus.active) (some PlanStatus.abandoned)
  complete : PlanEdge (some PlanStatus.active) (some PlanStatus.completed)

-- The plan is as before, or one revision on and along an edge.
abbrev pub Moved : Option PlanState → Option PlanState → Type 0
Moved before after =
    (after ≡ before)
    ⊎ ((plan_revision after ≡ plan_revision before + 1)
        × PlanEdge (plan_status before) (plan_status after))

pub task-applied :
    (s : CoreState) (c : CoreCommand) (kind : String) (payload : List (String × Payload))
    (r : CoreReduction)
    → applied_plan_command s c kind payload ≡ ok r
    → r.state.task ≡ s.task
unfolding applied_plan_command reset_no_progress
task-applied s c kind payload r h = ground arith

pub state-reject_command :
    (s : CoreState) (c : CoreCommand) (reason : String) (r : CoreReduction)
    → reject_command s c reason ≡ ok r
    → r.state ≡ s
unfolding reject_command
state-reject_command s c reason r h = ground arith

pub plan-with_plan :
    (s t : CoreState) (plan : PlanState) → with_plan s plan ≡ ok t → t.task.plan ≡ some plan
unfolding with_plan init_task
plan-with_plan s t plan h = ground arith

pub plan-remove_blocker :
    (s t : CoreState) (kind : TaskBlockerKind)
    → remove_blocker s kind ≡ ok t
    → t.task.plan ≡ s.task.plan
unfolding remove_blocker init_task
plan-remove_blocker s t kind h = ground arith

pub init_plan_fields :
    (p q : PlanState) → init_plan p ≡ ok q → (q.status ≡ p.status) × (q.revision ≡ p.revision)
unfolding init_plan
init_plan_fields p q h = ground arith

-- The tail of a plan command: the new plan is checked and stored, and the rest keeps it.
pub commit :
    (s : CoreState) (x : PlanState) (rest : PlanState → CoreState → Result CoreReduction)
    (r : CoreReduction)
    → ((p : PlanState) (t : CoreState) → rest p t ≡ ok r → r.state.task.plan ≡ t.task.plan)
    → (init_plan x >>= λ p. with_plan s p >>= λ t. rest p t) ≡ ok r
    → (p : PlanState) × (r.state.task.plan ≡ some p)
      × (p.status ≡ x.status)
      × (p.revision ≡ x.revision)
commit s x rest r keeps h =
    let (p, e, h1) = >>=-eq-ok (init_plan x) _ h in
    let (t, e1, h2) = >>=-eq-ok (with_plan s p) _ h1 in
    let (status, revision) = init_plan_fields x p e in
    (p, keeps p t h2 ∙ plan-with_plan s t p e1, status, revision)

-- the rest behind a blocker that is removed
pub applied_without :
    (t : CoreState) (kind : TaskBlockerKind) (c : CoreCommand) (name : String)
    (payload : List (String × Payload)) (r : CoreReduction)
    → (remove_blocker t kind >>= λ u. applied_plan_command u c name payload) ≡ ok r
    → r.state.task.plan ≡ t.task.plan
applied_without t kind c name payload r h =
    let (u, e, h') = >>=-eq-ok (remove_blocker t kind) _ h in
    ap (λ task. task.plan) (task-applied u c name payload r h') ∙ plan-remove_blocker t u kind e

-- What `commit` gives of the plan that it stores.
abbrev pub Committed : PlanState → Option PlanState → Type 0
Committed x after =
    (p : PlanState) × (after ≡ some p) × (p.status ≡ x.status) × (p.revision ≡ x.revision)

pub Committed-Moved :
    (before : Option PlanState) (x : PlanState) (after : Option PlanState)
    → Committed x after
    → x.revision ≡ plan_revision before + 1
    → PlanEdge (plan_status before) (some x.status)
    → Moved before after
Committed-Moved before x after (p, e, status, revision) h edge =
    rw e (inr (revision ∙ h, rw status edge))

pub proposed_of : (p : PlanState) → plan_is_proposed p ≡ true → p.status ≡ PlanStatus.proposed
proposed_of p h = ground arith

pub active_of : (p : PlanState) → plan_is_active p ≡ true → p.status ≡ PlanStatus.active
active_of p h = ground arith

pub rejected-Moved :
    (s : CoreState) (c : CoreCommand) (reason : String) (r : CoreReduction)
    → reject_command s c reason ≡ ok r
    → Moved s.task.plan r.state.task.plan
rejected-Moved s c reason r h =
    inl (ap (λ (t : CoreState). t.task.plan) (state-reject_command s c reason r h))

-- A command that stores the plan and nothing else.
pub stored-Moved :
    (s : CoreState) (before : Option PlanState) (x : PlanState) (c : CoreCommand) (name : String)
    (payload : PlanState → List (String × Payload)) (r : CoreReduction)
    → x.revision ≡ plan_revision before + 1
    → PlanEdge (plan_status before) (some x.status)
    → (init_plan x >>= λ p. with_plan s p >>= λ t. applied_plan_command t c name (payload p)) ≡ ok r
    → Moved before r.state.task.plan
stored-Moved s before x c name payload r next edge h =
    Committed-Moved before x _
      (commit s x _ r (λ p t k. ap (λ task. task.plan) (task-applied t c name (payload p) r k)) h)
      next edge

-- A command that stores the plan and removes a blocker.
pub unblocked-Moved :
    (s : CoreState) (before : Option PlanState) (x : PlanState) (kind : TaskBlockerKind)
    (c : CoreCommand) (name : String) (payload : PlanState → List (String × Payload))
    (r : CoreReduction)
    → x.revision ≡ plan_revision before + 1
    → PlanEdge (plan_status before) (some x.status)
    → (init_plan x >>= λ p. with_plan s p >>= λ t.
        remove_blocker t kind >>= λ u. applied_plan_command u c name (payload p))
      ≡ ok r
    → Moved before r.state.task.plan
unblocked-Moved s before x kind c name payload r next edge h =
    Committed-Moved before x _
      (commit s x _ r (λ p t k. applied_without t kind c name (payload p) r k) h) next edge

pub refused-Moved :
    (s : CoreState) (plan : PlanState) (c : CoreCommand) (reason : String) (r : CoreReduction)
    → s.task.plan ≡ some plan
    → reject_command s c reason ≡ ok r
    → Moved (some plan) r.state.task.plan
refused-Moved s plan c reason r here h =
    inl (ap (λ t. t.task.plan) (state-reject_command s c reason r h) ∙ here)
