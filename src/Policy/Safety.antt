-- ===== src/Policy/Safety.antt =====
-- What has to hold of the state where the policy lets a run go on.
use codepilot_stable.Base.{
  ◌≡◌, refl, Bool, true, false, ◌&&◌, not, Option, none, some, List, [], ◌∷◌, str_eq, String,
  Result, ok, arith,
}
use codepilot_stable.Literals.{RunMode, TaskStatus, TerminationStatus, CoreWaitKind}
use codepilot_stable.Plan.{PlanState}
use codepilot_stable.State.{CoreState, FailureRecord}
use codepilot_stable.Observations.{
  CoreObservation, model, tool_batch, user_input, core_command, cancellation,
}
use codepilot_stable.Reducer.Replies.{plan_is_proposed}
use codepilot_stable.Contracts.{CoreDecision, call_model, execute_tools, CoreReason}
use codepilot_stable.Events.{Payload}
use codepilot_stable.Tools.{ToolResult}
use codepilot_stable.Policy.{
  Verdict, or_then, ended, fatal, cancelled, is_read, read_violated, budget_wait, confirm_revision,
  on_plan, decide_open, decide_plan, decide,
}
use codepilot_stable.Policy.Tests.{
  PolicyContext, is_cancellation, stop, wait_for, external_wait, external_wait_in, suspended,
}

-- A decision by which the run goes on: the model or the tools are called.
abbrev pub goes_on : CoreDecision → Bool
goes_on (call_model purpose directive reason) = true
goes_on (execute_tools calls reason) = true
goes_on _ = false

stop-goes_on :
    (status : TerminationStatus) (code message : String) (refs : List String) (d : CoreDecision)
    → stop status code message refs ≡ ok d
    → goes_on d ≡ false
unfolding stop
stop-goes_on status code message refs d h = ground arith

wait_for-goes_on :
    (kind : CoreWaitKind) (id : String) (reason : CoreReason) (payload : List (String × Payload))
    (d : CoreDecision)
    → wait_for kind id reason payload ≡ ok d
    → goes_on d ≡ false
unfolding wait_for
wait_for-goes_on kind id reason payload d h = ground arith

-- A reply by which the run does not go on.
abbrev Halts : Result CoreDecision → Type 0
Halts m = (d : CoreDecision) → m ≡ ok d → goes_on d ≡ false

stop-Halts :
    (status : TerminationStatus) (code message : String) (refs : List String)
    → Halts (stop status code message refs)
stop-Halts status code message refs d h = stop-goes_on status code message refs d h

-- A test that halts or passes has passed where the run goes on.
passes :
    (v : Verdict) (rest : Result CoreDecision) (d : CoreDecision)
    → ((m : Result CoreDecision) → v ≡ some m → Halts m)
    → goes_on d ≡ true
    → or_then v rest ≡ ok d
    → (v ≡ none) × (rest ≡ ok d)
passes none rest d halts g h = (refl, h)
passes (some m) rest d halts g h = let stops = halts m refl d h in ground arith

ended-Halts : (s : CoreState) (m : Result CoreDecision) → ended s ≡ some m → Halts m
unfolding ended stop
ended-Halts s m e d h = ground arith

fatal-Halts : (s : CoreState) (m : Result CoreDecision) → fatal s ≡ some m → Halts m
unfolding fatal stop
fatal-Halts s m e d h = ground arith

cancelled-Halts : (o : CoreObservation) (m : Result CoreDecision) → cancelled o ≡ some m → Halts m
unfolding cancelled
cancelled-Halts o m e d h =
    let k = stop-goes_on TerminationStatus.cancelled "run.cancelled" "" [] d in ground arith

read_violated-Halts :
    (s : CoreState) (mode : RunMode) (m : Result CoreDecision)
    → read_violated s mode ≡ some m
    → Halts m
unfolding read_violated
read_violated-Halts s mode m e d h =
    let k = stop-goes_on TerminationStatus.failed "read.workspace_changed" "" [] d in ground arith

budget_wait-Halts :
    (s : CoreState) (o : CoreObservation) (c : PolicyContext) (m : Result CoreDecision)
    → budget_wait s o c ≡ some m
    → Halts m
unfolding budget_wait wait_for
budget_wait-Halts s o c m e d h = ground arith

suspended-Halts : (r : ToolResult) (m : Result CoreDecision) → suspended r ≡ some m → Halts m
unfolding suspended wait_for
suspended-Halts r m e d h = ground arith

external_wait_in-Halts :
    (results : List ToolResult) (m : Result CoreDecision)
    → external_wait_in results ≡ some m
    → Halts m
unfolding external_wait_in wait_for
external_wait_in-Halts [] m e d h = ground arith
external_wait_in-Halts (r ∷ results) m e d h =
    let first : suspended r ≡ some m → goes_on d ≡ false = λ k. suspended-Halts r m k d h in
    let rest : external_wait_in results ≡ some m → goes_on d ≡ false =
      λ k. external_wait_in-Halts results m k d h in
    ground (arith, first, rest)

external_wait-Halts :
    (o : CoreObservation) (m : Result CoreDecision) → external_wait o ≡ some m → Halts m
unfolding external_wait
external_wait-Halts (model o) m e d h = ground arith
external_wait-Halts (tool_batch o) m e d h = external_wait_in-Halts o.results m e d h
external_wait-Halts (user_input o) m e d h = ground arith
external_wait-Halts (core_command id o) m e d h = ground arith
external_wait-Halts (cancellation o) m e d h = ground arith

confirm_revision-Halts :
    (p : Option PlanState) (m : Result CoreDecision) → on_plan p confirm_revision ≡ some m → Halts m
unfolding confirm_revision wait_for
confirm_revision-Halts none m e d h = ground arith
confirm_revision-Halts (some plan) m e d h = ground arith

-- What the tests in front of the plan have found where the run goes on.
pub decide-passes :
    (s : CoreState) (o : CoreObservation) (c : PolicyContext) (d : CoreDecision)
    → decide s o c ≡ ok d
    → goes_on d ≡ true
    → (ended s ≡ none)
      × (fatal s ≡ none)
      × (cancelled o ≡ none)
      × (read_violated s c.mode ≡ none)
      × (decide_plan s o c ≡ ok d)
unfolding decide
decide-passes s o c d h g =
    let (e1, h1) = passes (ended s) _ d (ended-Halts s) g h in
    let (e2, h2) = passes (fatal s) _ d (fatal-Halts s) g h1 in
    let (e3, h3) = passes (external_wait o) _ d (external_wait-Halts o) g h2 in
    let (e4, h4) = passes (cancelled o) _ d (cancelled-Halts o) g h3 in
    let (e5, h5) = passes (read_violated s c.mode) _ d (read_violated-Halts s c.mode) g h4 in
    (e1, e2, e4, e5, h5)

-- A task that is over, and a failure from which nothing recovers.
abbrev pub is_over : TaskStatus → Bool
is_over TaskStatus.satisfied = true
is_over TaskStatus.abandoned = true
is_over _ = false

abbrev pub is_fatal : Option FailureRecord → Bool
is_fatal none = false
is_fatal (some f) = not f.recoverable && not (str_eq f.code "run.cancelled")

abbrev pub is_waiting_plan : Option PlanState → Bool
is_waiting_plan none = false
is_waiting_plan (some plan) = plan_is_proposed plan

-- Where the policy calls the model or the tools, the task is not over, the last failure is not
-- fatal, the observation is no cancellation, and no workspace was changed in the read mode.
pub decide-goes_on :
    (s : CoreState) (o : CoreObservation) (c : PolicyContext) (d : CoreDecision)
    → decide s o c ≡ ok d
    → goes_on d ≡ true
    → (is_over s.task.status ≡ false)
      × (is_fatal s.facts.failures.latest ≡ false)
      × (is_cancellation o ≡ false)
      × ((is_read c.mode && s.facts.workspace.changed) ≡ false)
unfolding ended fatal cancelled read_violated
decide-goes_on s o c d h g =
    let (e1, e2, e3, e4, h1) = decide-passes s o c d h g in
    (ground (arith, e1), ground (arith, e2), ground (arith, e3), ground (arith, e4))

pub decide_open-budget :
    (s : CoreState) (o : CoreObservation) (c : PolicyContext) (d : CoreDecision)
    → decide_open s o c ≡ ok d
    → goes_on d ≡ true
    → budget_wait s o c ≡ none
unfolding decide_open
decide_open-budget s o c d h g =
    let (e1, h1) =
      passes (on_plan s.task.plan confirm_revision) _ d (confirm_revision-Halts s.task.plan) g h in
    let (e2, h2) = passes (budget_wait s o c) _ d (budget_wait-Halts s o c) g h1 in e2

pub decide_plan-open :
    (s : CoreState) (o : CoreObservation) (c : PolicyContext) (p : Option PlanState)
    → s.task.plan ≡ p
    → is_waiting_plan p ≡ false
    → decide_plan s o c ≡ decide_open s o c
unfolding decide_plan
decide_plan-open s o c none e k = ground arith
decide_plan-open s o c (some p) e k = ground arith
