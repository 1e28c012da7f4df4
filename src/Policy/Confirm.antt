-- ===== src/Policy/Confirm.antt =====
-- When the policy offers a plan to the user for confirmation.
use codepilot_stable.Base.{
  ◌≡◌, refl, Bool, true, false, none, some, List, [], ◌∷◌, Result, ok, String, Bool-cases, inl, inr,
  arith,
}
use codepilot_stable.Literals.{RunMode, ModelPurpose, CoreWaitKind, plan_incomplete}
use codepilot_stable.Plan.{PlanState}
use codepilot_stable.State.{CoreState, has_blocker}
use codepilot_stable.Tools.{ToolResult}
use codepilot_stable.Observations.{
  CoreObservation, model, tool_batch, user_input, core_command, cancellation,
}
use codepilot_stable.Reducer.Replies.{plan_is_proposed}
use codepilot_stable.Contracts.{CoreDecision, wait, init_wait, new_execute_tools}
use codepilot_stable.Policy.{
  Verdict, or_then, ended, fatal, cancelled, read_violated, requested_tools, is_feedback,
  confirm_plan, decide_plan, decide, budget_wait,
}
use codepilot_stable.Policy.Tests.{
  PolicyContext, ask_model, stop, wait_for, external_wait, external_wait_in, suspended,
}

abbrev pub is_confirmation : CoreWaitKind → Bool
is_confirmation CoreWaitKind.plan_confirmation = true
is_confirmation _ = false

-- A decision that offers a plan to the user.
abbrev pub offers_plan : CoreDecision → Bool
offers_plan (wait w) = is_confirmation w.kind
offers_plan _ = false

abbrev Silent : Result CoreDecision → Type 0
Silent m = (d : CoreDecision) → m ≡ ok d → offers_plan d ≡ false

passes :
    (v : Verdict) (rest : Result CoreDecision) (d : CoreDecision)
    → ((m : Result CoreDecision) → v ≡ some m → Silent m)
    → offers_plan d ≡ true
    → or_then v rest ≡ ok d
    → rest ≡ ok d
passes none rest d silent g h = h
passes (some m) rest d silent g h = let k = silent m refl d h in ground arith

ended-Silent : (s : CoreState) (m : Result CoreDecision) → ended s ≡ some m → Silent m
unfolding ended stop
ended-Silent s m e d h = ground arith

fatal-Silent : (s : CoreState) (m : Result CoreDecision) → fatal s ≡ some m → Silent m
unfolding fatal stop
fatal-Silent s m e d h = ground arith

cancelled-Silent : (o : CoreObservation) (m : Result CoreDecision) → cancelled o ≡ some m → Silent m
unfolding cancelled stop
cancelled-Silent o m e d h = ground arith

read_violated-Silent :
    (s : CoreState) (mode : RunMode) (m : Result CoreDecision)
    → read_violated s mode ≡ some m
    → Silent m
unfolding read_violated stop
read_violated-Silent s mode m e d h = ground arith

suspended-Silent : (r : ToolResult) (m : Result CoreDecision) → suspended r ≡ some m → Silent m
unfolding suspended wait_for init_wait
suspended-Silent r m e d h = ground arith

external_wait_in-Silent :
    (results : List ToolResult) (m : Result CoreDecision)
    → external_wait_in results ≡ some m
    → Silent m
unfolding external_wait_in wait_for init_wait
external_wait_in-Silent [] m e d h = ground arith
external_wait_in-Silent (r ∷ results) m e d h =
    let first : suspended r ≡ some m → offers_plan d ≡ false = λ k. suspended-Silent r m k d h in
    let rest : external_wait_in results ≡ some m → offers_plan d ≡ false =
      λ k. external_wait_in-Silent results m k d h in
    ground (arith, first, rest)

external_wait-Silent :
    (o : CoreObservation) (m : Result CoreDecision) → external_wait o ≡ some m → Silent m
unfolding external_wait
external_wait-Silent (model o) m e d h = ground arith
external_wait-Silent (tool_batch o) m e d h = external_wait_in-Silent o.results m e d h
external_wait-Silent (user_input o) m e d h = ground arith
external_wait-Silent (core_command id o) m e d h = ground arith
external_wait-Silent (cancellation o) m e d h = ground arith

requested_tools-Silent :
    (o : CoreObservation) (m : Result CoreDecision) → requested_tools o ≡ some m → Silent m
unfolding requested_tools new_execute_tools
requested_tools-Silent o m e d h = ground arith

ask_model-Silent :
    (purpose : ModelPurpose) (code : String) (refs constraints : List String)
    → Silent (ask_model purpose code refs constraints)
unfolding ask_model
ask_model-Silent purpose code refs constraints d h = ground arith

budget_wait-Silent :
    (s : CoreState) (o : CoreObservation) (c : PolicyContext) (m : Result CoreDecision)
    → budget_wait s o c ≡ some m
    → Silent m
unfolding budget_wait wait_for init_wait
budget_wait-Silent s o c m e d h = ground arith

-- while a revision is due
due-Silent :
    (s : CoreState) (o : CoreObservation) (c : PolicyContext) (p : PlanState)
    → has_blocker plan_incomplete s.task.blockers ≡ true
    → Silent (confirm_plan s o c p)
unfolding confirm_plan
due-Silent s o c p b d h = elim (Bool-cases (is_feedback s o)) [
  | inl said ↦ ask_model-Silent _ _ _ _ d (rw said at h)
  | inr quiet ↦
      let h1 = rw (quiet, b) at h in
      elim (Bool-cases (offers_plan d)) [
        | inl g ↦
            ask_model-Silent _ _ _ _ d
              (passes (budget_wait s o c) _ d (budget_wait-Silent s o c) g h1)
        | inr g ↦ g
      ]
]

confirm_plan-ready :
    (s : CoreState) (o : CoreObservation) (c : PolicyContext) (p : PlanState) (d : CoreDecision)
    → confirm_plan s o c p ≡ ok d
    → offers_plan d ≡ true
    → has_blocker plan_incomplete s.task.blockers ≡ false
confirm_plan-ready s o c p d h g = elim (Bool-cases (has_blocker plan_incomplete s.task.blockers)) [
  | inl due ↦ let k = due-Silent s o c p due d h in absurd (ground (arith, k, g))
  | inr ready ↦ ready
]

decide_plan-ready :
    (s : CoreState) (o : CoreObservation) (c : PolicyContext) (p : PlanState) (d : CoreDecision)
    → s.task.plan ≡ some p
    → plan_is_proposed p ≡ true
    → decide_plan s o c ≡ ok d
    → offers_plan d ≡ true
    → has_blocker plan_incomplete s.task.blockers ≡ false
unfolding decide_plan
decide_plan-ready s o c p d e k h g =
    let asks : or_then (requested_tools o) (confirm_plan s o c p) ≡ ok d
        → has_blocker plan_incomplete s.task.blockers ≡ false =
      λ k.
        confirm_plan-ready s o c p d (passes (requested_tools o) _ d (requested_tools-Silent o) g k)
          g in
    ground (arith, asks)

-- A proposed plan is offered to the user for confirmation only while no feedback of the user waits for
-- a revision of it.
pub decide-offers_plan :
    (s : CoreState) (o : CoreObservation) (c : PolicyContext) (p : PlanState) (d : CoreDecision)
    → s.task.plan ≡ some p
    → plan_is_proposed p ≡ true
    → decide s o c ≡ ok d
    → offers_plan d ≡ true
    → has_blocker plan_incomplete s.task.blockers ≡ false
unfolding decide
decide-offers_plan s o c p d e k h g =
    let h0 = passes (ended s) _ d (ended-Silent s) g h in
    let h1 = passes (fatal s) _ d (fatal-Silent s) g h0 in
    let h2 = passes (external_wait o) _ d (external_wait-Silent o) g h1 in
    let h3 = passes (cancelled o) _ d (cancelled-Silent o) g h2 in
    let h4 = passes (read_violated s c.mode) _ d (read_violated-Silent s c.mode) g h3 in
    decide_plan-ready s o c p d e k h4 g
