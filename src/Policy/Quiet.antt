-- ===== src/Policy/Quiet.antt =====
-- The tests of the policy that never report a success, and what is left of `decide` behind them.
use codepilot_stable.Base.{
  ◌≡◌, refl, Bool, true, false, Option, none, some, List, [], ◌∷◌, String, Result, ok, arith, ◌⊎◌,
  inl, inr,
}
use codepilot_stable.Literals.{RunMode, TaskStatus, TerminationStatus, ModelPurpose}
use codepilot_stable.Plan.{PlanState}
use codepilot_stable.State.{CoreState}
use codepilot_stable.Observations.{
  CoreObservation, model, tool_batch, user_input, core_command, cancellation,
}
use codepilot_stable.Contracts.{CoreDecision, terminate, new_execute_tools}
use codepilot_stable.Tools.{ToolResult}
use codepilot_stable.Policy.{
  Verdict, or_then, ended, fatal, cancelled, read_violated, budget_wait, requested_tools,
  confirm_plan, confirm_revision, recover, recovery, replan, active_plan, on_plan, verify, finish,
  decide_open, decide_plan, decide,
}
use codepilot_stable.Policy.Tests.{
  PolicyContext, ask_model, stop, wait_for, external_wait, external_wait_in, suspended,
}

-- A decision that reports the task as completed.
abbrev pub reports_success : CoreDecision → Bool
reports_success (terminate TerminationStatus.completed code message refs) = true
reports_success _ = false

-- A reply that does not report a success.
abbrev pub Quiet : Result CoreDecision → Type 0
Quiet m = (d : CoreDecision) → m ≡ ok d → reports_success d ≡ false

pub passes :
    (v : Verdict) (rest : Result CoreDecision) (d : CoreDecision)
    → ((m : Result CoreDecision) → v ≡ some m → Quiet m)
    → reports_success d ≡ true
    → or_then v rest ≡ ok d
    → rest ≡ ok d
passes none rest d quiet g h = h
passes (some m) rest d quiet g h = let k = quiet m refl d h in ground arith

ask_model-Quiet :
    (purpose : ModelPurpose) (code : String) (refs constraints : List String)
    → Quiet (ask_model purpose code refs constraints)
unfolding ask_model
ask_model-Quiet purpose code refs constraints d h = ground arith

fatal-Quiet : (s : CoreState) (m : Result CoreDecision) → fatal s ≡ some m → Quiet m
unfolding fatal stop
fatal-Quiet s m e d h = ground arith

cancelled-Quiet : (o : CoreObservation) (m : Result CoreDecision) → cancelled o ≡ some m → Quiet m
unfolding cancelled stop
cancelled-Quiet o m e d h = ground arith

read_violated-Quiet :
    (s : CoreState) (mode : RunMode) (m : Result CoreDecision)
    → read_violated s mode ≡ some m
    → Quiet m
unfolding read_violated stop
read_violated-Quiet s mode m e d h = ground arith

budget_wait-Quiet :
    (s : CoreState) (o : CoreObservation) (c : PolicyContext) (m : Result CoreDecision)
    → budget_wait s o c ≡ some m
    → Quiet m
unfolding budget_wait wait_for
budget_wait-Quiet s o c m e d h = ground arith

suspended-Quiet : (r : ToolResult) (m : Result CoreDecision) → suspended r ≡ some m → Quiet m
unfolding suspended wait_for
suspended-Quiet r m e d h = ground arith

external_wait_in-Quiet :
    (results : List ToolResult) (m : Result CoreDecision)
    → external_wait_in results ≡ some m
    → Quiet m
unfolding external_wait_in wait_for
external_wait_in-Quiet [] m e d h = ground arith
external_wait_in-Quiet (r ∷ results) m e d h =
    let first : suspended r ≡ some m → reports_success d ≡ false = λ k. suspended-Quiet r m k d h in
    let rest : external_wait_in results ≡ some m → reports_success d ≡ false =
      λ k. external_wait_in-Quiet results m k d h in
    ground (arith, first, rest)

external_wait-Quiet :
    (o : CoreObservation) (m : Result CoreDecision) → external_wait o ≡ some m → Quiet m
unfolding external_wait
external_wait-Quiet (model o) m e d h = ground arith
external_wait-Quiet (tool_batch o) m e d h = external_wait_in-Quiet o.results m e d h
external_wait-Quiet (user_input o) m e d h = ground arith
external_wait-Quiet (core_command id o) m e d h = ground arith
external_wait-Quiet (cancellation o) m e d h = ground arith

requested_tools-Quiet :
    (o : CoreObservation) (m : Result CoreDecision) → requested_tools o ≡ some m → Quiet m
unfolding requested_tools new_execute_tools
requested_tools-Quiet o m e d h = ground arith

confirm_plan-Quiet :
    (s : CoreState) (o : CoreObservation) (c : PolicyContext) (p : PlanState)
    → Quiet (confirm_plan s o c p)
unfolding confirm_plan ask_model wait_for budget_wait
confirm_plan-Quiet s o c p d h = ground arith

confirm_revision-Quiet :
    (p : Option PlanState) (m : Result CoreDecision) → on_plan p confirm_revision ≡ some m → Quiet m
unfolding confirm_revision wait_for
confirm_revision-Quiet none m e d h = ground arith
confirm_revision-Quiet (some plan) m e d h = ground arith

recovery-Quiet :
    (s : CoreState) (o : CoreObservation) (c : PolicyContext) (m : Result CoreDecision)
    → recovery s o c ≡ some m
    → Quiet m
unfolding recovery recover ask_model stop
recovery-Quiet s o c m e d h = ground arith

replan-Quiet : (s : CoreState) (m : Result CoreDecision) → replan s ≡ some m → Quiet m
unfolding replan ask_model
replan-Quiet s m e d h = ground arith

pub verify-Quiet : (s : CoreState) (m : Result CoreDecision) → verify s ≡ some m → Quiet m
unfolding verify ask_model
verify-Quiet s m e d h = ground arith

-- the tests behind those that are quiet
abbrev pub rest_of : CoreState → CoreObservation → PolicyContext → Result CoreDecision
rest_of s o c = or_then (on_plan s.task.plan (active_plan s o)) (or_then (verify s) (finish s o c))

decide_open-rest :
    (s : CoreState) (o : CoreObservation) (c : PolicyContext) (d : CoreDecision)
    → decide_open s o c ≡ ok d
    → reports_success d ≡ true
    → rest_of s o c ≡ ok d
unfolding decide_open
decide_open-rest s o c d h g =
    let h1 =
      passes (on_plan s.task.plan confirm_revision) _ d (confirm_revision-Quiet s.task.plan) g h in
    let h2 = passes (budget_wait s o c) _ d (budget_wait-Quiet s o c) g h1 in
    let h3 = passes (requested_tools o) _ d (requested_tools-Quiet o) g h2 in
    let h4 = passes (recovery s o c) _ d (recovery-Quiet s o c) g h3 in
    passes (replan s) _ d (replan-Quiet s) g h4

decide_plan-open :
    (s : CoreState) (o : CoreObservation) (c : PolicyContext) (d : CoreDecision)
    (q : Option PlanState)
    → s.task.plan ≡ q
    → decide_plan s o c ≡ ok d
    → reports_success d ≡ true
    → decide_open s o c ≡ ok d
unfolding decide_plan
decide_plan-open s o c d none e h g = ground arith
decide_plan-open s o c d (some p) e h g =
    let asks : or_then (requested_tools o) (confirm_plan s o c p) ≡ ok d
        → reports_success d ≡ false =
      λ k.
        confirm_plan-Quiet s o c p d
          (passes (requested_tools o) _ d (requested_tools-Quiet o) g k) in
    ground (arith, asks)

ended-satisfied :
    (s : CoreState) (m : Result CoreDecision) (d : CoreDecision)
    → ended s ≡ some m
    → m ≡ ok d
    → reports_success d ≡ true
    → s.task.status ≡ TaskStatus.satisfied
unfolding ended stop
ended-satisfied s m d e h g = ground arith

behind_end :
    (s : CoreState) (o : CoreObservation) (c : PolicyContext) (d : CoreDecision) (v : Verdict)
    → ended s ≡ v
    → or_then v (
        or_then (fatal s) (
          or_then
            (external_wait o)
            (or_then (cancelled o) (or_then (read_violated s c.mode) (decide_plan s o c)))))
      ≡ ok d
    → reports_success d ≡ true
    → (s.task.status ≡ TaskStatus.satisfied) ⊎ (rest_of s o c ≡ ok d)
behind_end s o c d (some m) e h g = inl (ended-satisfied s m d e h g)
behind_end s o c d none e h g =
    let h1 = passes (fatal s) _ d (fatal-Quiet s) g h in
    let h2 = passes (external_wait o) _ d (external_wait-Quiet o) g h1 in
    let h3 = passes (cancelled o) _ d (cancelled-Quiet o) g h2 in
    let h4 = passes (read_violated s c.mode) _ d (read_violated-Quiet s c.mode) g h3 in
    inr (decide_open-rest s o c d (decide_plan-open s o c d s.task.plan refl h4 g) g)

-- A success is reported of a task that is satisfied already, or by the tests behind the quiet ones.
pub decide-rest :
    (s : CoreState) (o : CoreObservation) (c : PolicyContext) (d : CoreDecision)
    → decide s o c ≡ ok d
    → reports_success d ≡ true
    → (s.task.status ≡ TaskStatus.satisfied) ⊎ (rest_of s o c ≡ ok d)
unfolding decide
decide-rest s o c d h g = behind_end s o c d (ended s) refl h g
