-- ===== src/Reducer/Lifecycle/Ends.antt =====
-- Whole runs: observations and decisions in any order and number.
use codepilot_stable.Base.{
  ◌≡◌, refl, ap, ◌∙◌, ◌≤◌, Bool, true, false, Option, none, some, ok, arith, inl, inr,
}
use codepilot_stable.Literals.{RunMode, PlanStatus}
use codepilot_stable.Plan.{PlanState}
use codepilot_stable.State.{CoreState}
use codepilot_stable.Observations.{CoreObservation}
use codepilot_stable.Contracts.{CoreDecision}
use codepilot_stable.Reducer.Facts.{CoreReduction}
use codepilot_stable.Reducer.Observe.{reduce_observation}
use codepilot_stable.Reducer.Decision.{apply_decision}
use codepilot_stable.Reducer.Lifecycle.{
  PlanEdge, propose, start, same, approve_edge, reject_edge, withdraw, give_up, complete, Moved,
  plan_status, plan_revision,
}
use codepilot_stable.Reducer.Lifecycle.Runs.{Evolves, here, onward}
use codepilot_stable.Reducer.Lifecycle.History.{reduce_observation-Evolves, apply_decision-Moved}

-- The states that a run goes through: in each step an observation is reduced or a decision applied.
pub data Run : CoreState → CoreState → Type 0 where
  ended : {s : CoreState} → Run s s
  observe :
      {s t : CoreState} (o : CoreObservation) (mode : RunMode) (r : CoreReduction)
      → reduce_observation s o mode ≡ ok r
      → Run r.state t
      → Run s t
  decided :
      {s t : CoreState} (d : CoreDecision) (r : CoreReduction)
      → apply_decision s d ≡ ok r
      → Run r.state t
      → Run s t

follow : {o p q : Option PlanState} → Evolves o p → Evolves p q → Evolves o q
follow here rest = rest
follow (onward m more) rest = onward m (follow more rest)

-- A run takes the plan along a path of the plan's life.
pub run-Evolves : {s t : CoreState} → Run s t → Evolves s.task.plan t.task.plan
run-Evolves ended = here
run-Evolves (observe {s} o mode r h rest) =
    follow (reduce_observation-Evolves s o mode r h) (run-Evolves rest)
run-Evolves (decided {s} d r h rest) = onward (apply_decision-Moved s d r h) (run-Evolves rest)

Moved-revision : (o p : Option PlanState) → Moved o p → plan_revision o ≤ plan_revision p
Moved-revision o p (inl e) = let same_revision = ap plan_revision e in omega arith
Moved-revision o p (inr (e, edge)) = omega arith

Evolves-revision : {o p : Option PlanState} → Evolves o p → plan_revision o ≤ plan_revision p
Evolves-revision here = omega arith
Evolves-revision (onward {o} {p} {q} m rest) =
    let first = Moved-revision o p m in let more = Evolves-revision rest in omega arith

-- Over a whole run the revision of the task's plan never gets smaller; no plan counts as revision
-- zero.
pub run-revision :
    {s t : CoreState} → Run s t → plan_revision s.task.plan ≤ plan_revision t.task.plan
run-revision run = Evolves-revision (run-Evolves run)

-- a status that a plan does not leave
abbrev pub is_closed : PlanStatus → Bool
is_closed PlanStatus.completed = true
is_closed PlanStatus.rejected = true
is_closed PlanStatus.abandoned = true
is_closed _ = false

abbrev status_closed : Option PlanStatus → Bool
status_closed none = false
status_closed (some status) = is_closed status

edge_closed : {a b : Option PlanStatus} → PlanEdge a b → status_closed a ≡ true → b ≡ a
edge_closed propose h = ground arith
edge_closed start h = ground arith
edge_closed same h = refl
edge_closed approve_edge h = ground arith
edge_closed reject_edge h = ground arith
edge_closed withdraw h = ground arith
edge_closed give_up h = ground arith
edge_closed complete h = ground arith

Moved-closed :
    (o p : Option PlanState)
    → Moved o p
    → status_closed (plan_status o) ≡ true
    → plan_status p ≡ plan_status o
Moved-closed o p (inl e) h = ap plan_status e
Moved-closed o p (inr (e, edge)) h = edge_closed edge h

Evolves-closed :
    {o p : Option PlanState}
    → Evolves o p
    → status_closed (plan_status o) ≡ true
    → plan_status p ≡ plan_status o
Evolves-closed here h = refl
Evolves-closed (onward {o} {p} {q} m rest) h =
    let first = Moved-closed o p m h in Evolves-closed rest (ap status_closed first ∙ h) ∙ first

-- A plan that is completed, rejected or abandoned keeps that status over every further run of
-- observations and decisions.
pub run_closed :
    {s t : CoreState} (plan : PlanState)
    → Run s t
    → s.task.plan ≡ some plan
    → is_closed plan.status ≡ true
    → plan_status t.task.plan ≡ some plan.status
run_closed plan run e h =
    Evolves-closed (run-Evolves run) (ap (λ o. status_closed (plan_status o)) e ∙ h)
    ∙ ap plan_status e
