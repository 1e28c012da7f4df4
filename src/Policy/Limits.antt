-- ===== src/Policy/Limits.antt =====
-- The limits of a run, within which the policy lets it go on.
use codepilot_stable.Base.{
  ◌≡◌, refl, sym, ◌∙◌, true, false, Option, none, some, ok, arith, ℕ, ◌≤◌, ◌<◌, ◌⊎◌, inl, inr, ◌||◌,
  length, ltb, Bool-cases,
}
use codepilot_stable.State.{CoreState}
use codepilot_stable.Observations.{CoreObservation}
use codepilot_stable.Contracts.{CoreLimits, CoreDecision}
use codepilot_stable.Policy.{
  is_model, is_tool_batch, over_limit, budget_reason, budget_wait, decide,
}
use codepilot_stable.Policy.Tests.{PolicyContext, observed_calls, is_final_candidate}
use codepilot_stable.Policy.Safety.{
  goes_on, is_waiting_plan, decide-passes, decide_open-budget, decide_plan-open,
}

abbrev pub IsUnder : Option ℕ → ℕ → Type 0
IsUnder none n = Unit
IsUnder (some limit) n = n ≤ limit

-- A turn is left, or the observation needs none: it is neither an answer of the model nor of the
-- tools, it has calls that are to be run, or it is a final answer of a task without blockers.
abbrev pub HasTurn : CoreState → CoreObservation → ℕ → Type 0
HasTurn s o limit =
    (s.facts.counters.model_turns < limit)
    ⊎ (((is_model o || is_tool_batch o) ≡ false)
        ⊎ ((0 < length (observed_calls o))
            ⊎ ((is_final_candidate o ≡ true) × (length s.task.blockers ≡ 0))))

-- Each counter of the run is within its limit.
abbrev pub IsWithin : CoreState → CoreObservation → CoreLimits → Type 0
IsWithin s o limits =
    (s.facts.counters.model_turns ≤ limits.max_model_turns)
    × HasTurn s o limits.max_model_turns
    × (s.facts.counters.tool_iterations ≤ limits.max_tool_iterations)
    × IsUnder limits.max_tool_calls s.facts.counters.tool_calls
    × (s.facts.loop_guards.repeated_tool_calls ≤ limits.repeated_tool_call_limit)

over_limit-IsUnder : (n : ℕ) (limit : Option ℕ) → over_limit n limit ≡ false → IsUnder limit n
over_limit-IsUnder n none h = tt
over_limit-IsUnder n (some limit) h = ground arith

budget_reason-HasTurn :
    (s : CoreState) (o : CoreObservation) (c : PolicyContext)
    → budget_reason s o c ≡ none
    → HasTurn s o c.limits.max_model_turns
unfolding budget_reason
budget_reason-HasTurn s o c h =
    elim (Bool-cases (ltb s.facts.counters.model_turns c.limits.max_model_turns)) [
      | inl left ↦ inl (ground (arith, left))
      | inr used ↦ inr (elim (Bool-cases (is_model o || is_tool_batch o)) [
        | inr other ↦ inl other
        | inl answers ↦ inr (elim (Bool-cases (ltb 0 (length (observed_calls o)))) [
          | inl asks ↦ inl (ground (arith, asks))
          | inr silent ↦ inr (elim (Bool-cases (is_final_candidate o)) [
            | inl final ↦ (final, ground (arith, h, used, answers, silent, final))
            | inr unfinished ↦ absurd (ground (arith, h, used, answers, silent, unfinished))
          ])
        ])
      ])
    ]

budget_reason-IsWithin :
    (s : CoreState) (o : CoreObservation) (c : PolicyContext)
    → budget_reason s o c ≡ none
    → IsWithin s o c.limits
unfolding budget_reason
budget_reason-IsWithin s o c h = (
  ground arith,
  budget_reason-HasTurn s o c h,
  ground arith,
  over_limit-IsUnder s.facts.counters.tool_calls c.limits.max_tool_calls (ground arith),
  ground arith,
)

-- Where no plan waits for its confirmation, the policy calls the model or the tools only within the
-- limits of the run: no more turns of the model, rounds of tools, calls of tools (where they are
-- limited) and repetitions of one call are counted than the limits allow; and a turn of the model
-- is left, unless the observation is no answer of the model or of the tools, or it asks for calls,
-- or it is a final answer and nothing blocks the task.
pub decide-IsWithin :
    (s : CoreState) (o : CoreObservation) (c : PolicyContext) (d : CoreDecision)
    → decide s o c ≡ ok d
    → goes_on d ≡ true
    → is_waiting_plan s.task.plan ≡ false
    → IsWithin s o c.limits
unfolding budget_wait
decide-IsWithin s o c d h g k =
    let (e1, e2, e3, e4, h1) = decide-passes s o c d h g in
    let h2 = sym (decide_plan-open s o c s.task.plan refl k) ∙ h1 in
    let b = decide_open-budget s o c d h2 g in
    let passed : budget_reason s o c ≡ none = ground arith in budget_reason-IsWithin s o c passed
