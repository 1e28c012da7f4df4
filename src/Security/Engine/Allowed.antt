-- ===== src/Security/Engine/Allowed.antt =====
-- What holds of a call that the permission engine lets run without asking.
use codepilot_stable.Base.{
  String, Bool, true, false, not, none, List, [], ◌∷◌, ◌≡◌, refl, All, all, filter, arith,
  Bool-cases, Option-cases, inl, inr, ◌⊎◌, ◌≢◌, ◌≤◌,
}
use codepilot_stable.Base.Sorting.{sort_by, insert_by}
use codepilot_stable.Security.Types.{
  PermissionEffect, PermissionEngine, ToolExecutionRequest, ToolPolicy, ToolAccessRequest,
  risk_rank, has_mode, effects_within, effects_meet,
}
use codepilot_stable.Security.Permissions.{
  contains_forbidden_auth, is_high_risk, missing_permissions, is_granted,
}
use codepilot_stable.Security.Rules.{matched_rule, pairs, resource_uris}
use codepilot_stable.Security.Rules.Strictest.{HasAllowing, matched_rule-allow}
use codepilot_stable.Security.Engine.{
  decide, decide_by_effects, decide_by_rules, decide_by_policy, is_always, is_on_risk,
}

-- every condition that the documented steps 1 to 6 put on a call
pub IsPermitted : PermissionEngine → ToolExecutionRequest → ToolPolicy → ToolAccessRequest → Type 0
IsPermitted engine request policy access =
    (contains_forbidden_auth request.arguments ≡ false)
    × (has_mode request.mode policy.allowed_modes ≡ true)
    × (all (is_granted engine.granted_permissions) policy.required_permissions ≡ true)
    × (effects_within access.effects policy.declared_effects ≡ true)
    × (is_high_risk access.safe_preview ≡ false)
    × (effects_meet access.effects engine.denied_effects ≡ false)
    × (effects_meet access.effects engine.approval_effects ≡ false)

-- Steps 7 to 9: for each action on each resource, the highest rule that matches allows it, or no rule decides and the tool asks for no approval
pub IsCleared : PermissionEngine → ToolExecutionRequest → ToolPolicy → ToolAccessRequest → Type 0
IsCleared engine request policy access =
    All (HasAllowing engine.rules request.mode) (pairs access.actions (resource_uris access))
    ⊎ ((matched_rule engine request.mode access ≡ none)
        × (is_always policy.approval ≡ false)
        × (is_on_risk policy.approval ≡ true
            → (risk_rank policy.base_risk ≤ 0) × (risk_rank access.risk ≤ 0)))

insert_by_nonempty : (x : String) (ys : List String) → insert_by (λ p. p) x ys ≢ []
unfolding insert_by
insert_by_nonempty x [] h = cc
insert_by_nonempty x (y ∷ ys) h = ground arith

none_missing :
    (test : String → Bool) (xs : List String)
    → sort_by (λ p. p) (filter (λ p. not (test p)) xs) ≡ []
    → all test xs ≡ true
unfolding sort_by filter all
none_missing test [] h = refl
none_missing test (x ∷ xs) h = elim (Bool-cases (test x)) [
  | inl passes ↦ let h' = rw passes at h in rw (passes, none_missing test xs h')
  | inr fails ↦ let h' = rw fails at h in absurd (insert_by_nonempty x _ h')
]

decide_by_policy-allow :
    (policy : ToolPolicy) (access : ToolAccessRequest)
    → (decide_by_policy policy access).effect ≡ PermissionEffect.allow
    → (is_always policy.approval ≡ false)
      × (is_on_risk policy.approval ≡ true
          → (risk_rank policy.base_risk ≤ 0) × (risk_rank access.risk ≤ 0))
unfolding decide_by_policy
decide_by_policy-allow policy access h = ground arith

decide_by_rules-allow :
    (engine : PermissionEngine) (request : ToolExecutionRequest) (policy : ToolPolicy)
    (access : ToolAccessRequest)
    → (decide_by_rules engine request policy access).effect ≡ PermissionEffect.allow
    → IsCleared engine request policy access
unfolding decide_by_rules IsCleared
decide_by_rules-allow engine request policy access h =
    elim (Option-cases (matched_rule engine request.mode access)) [
      | inl missing ↦
          let h' = rw (missing, decide_by_rules) at h in
          let waived = decide_by_policy-allow policy access h' in inr (missing, waived.0, waived.1)
      | inr (rule, found) ↦
          let h' = rw (found, decide_by_rules) at h in
          inl (matched_rule-allow engine request.mode access rule found h')
    ]

-- Where the permission engine allows a call, its arguments have no forbidden key at any depth, its
-- mode is one of the tool's, every permission that the tool requires is granted, its effects are
-- among those that the tool declares and none of them is denied or needs an approval, and its
-- preview is of no dangerous command. And for each action on each resource, some rule that matches
-- allows it and no rule that matches ranks above that rule; or no rule decides, and the tool does
-- not always ask and asks by risk only where both the tool's risk and that of the call are low.
pub decide-IsPermitted :
    (engine : PermissionEngine) (request : ToolExecutionRequest) (policy : ToolPolicy)
    (access : ToolAccessRequest)
    → (decide engine request policy access).effect ≡ PermissionEffect.allow
    → IsPermitted engine request policy access × IsCleared engine request policy access
unfolding decide decide_by_effects missing_permissions IsPermitted
decide-IsPermitted engine request policy access h =
    let cleared = decide_by_rules-allow engine request policy access in
    let granted =
      none_missing (is_granted engine.granted_permissions) policy.required_permissions in
    ground (arith, cleared, granted)

pub PermissionEffect-cases :
    (effect : PermissionEffect)
    → (effect ≡ PermissionEffect.deny)
      ⊎ ((effect ≡ PermissionEffect.allow) ⊎ (effect ≡ PermissionEffect.ask))
PermissionEffect-cases PermissionEffect.deny = inl refl
PermissionEffect-cases PermissionEffect.allow = inr (inl refl)
PermissionEffect-cases PermissionEffect.ask = inr (inr refl)
