-- ===== src/Security/Engine.antt =====
-- `PermissionEngine.decide` of tools/security.py: whether a call is refused, needs the user's
-- approval, or may run.
pub mod Allowed
use codepilot_stable.Base.{
  ℕ, String, Bool, true, false, ◌&&◌, not, Option, none, some, List, [], ◌∷◌, leb, if◌then◌else◌,
}
use codepilot_stable.Security.Types.{
  RiskLevel, ApprovalPolicy, PermissionEffect, PermissionRule, PermissionDecision, PermissionEngine,
  ToolExecutionRequest, ToolPolicy, ToolAccessRequest, risk_rank, has_mode, effects_within,
  effects_meet,
}
use codepilot_stable.Security.Permissions.{
  contains_forbidden_auth, is_high_risk, missing_permissions,
}
use codepilot_stable.Security.Rules.{matched_rule}
use Prim.Native.Nat.{max}

abbrev pub decision : PermissionEffect → String → PermissionDecision
decision effect reason = record {
  effect = effect;
  reason = reason;
  matched_rule = none;
  missing_permissions = [];
}

-- `f"permission_rule_{effect}"`
abbrev pub rule_reason : PermissionEffect → String
rule_reason PermissionEffect.allow = "permission_rule_allow"
rule_reason PermissionEffect.deny = "permission_rule_deny"
rule_reason PermissionEffect.ask = "permission_rule_ask"

-- `policy.approval == "always"`
abbrev pub is_always : ApprovalPolicy → Bool
is_always ApprovalPolicy.always = true
is_always _ = false

-- `policy.approval == "on_risk"`
abbrev pub is_on_risk : ApprovalPolicy → Bool
is_on_risk ApprovalPolicy.on_risk = true
is_on_risk _ = false

-- what the policy of the tool says where no rule does
unfoldable pub decide_by_policy : ToolPolicy → ToolAccessRequest → PermissionDecision
decide_by_policy policy access =
    if is_always policy.approval
    then decision PermissionEffect.ask "tool_policy_requires_approval"
    else if is_on_risk policy.approval
        && leb (risk_rank RiskLevel.medium)
            (max (risk_rank policy.base_risk) (risk_rank access.risk))
    then decision PermissionEffect.ask "tool_risk_requires_approval"
    else decision PermissionEffect.allow "tool_policy_allow"

-- the rules, and then the policy
unfoldable pub decide_by_rules :
    PermissionEngine → ToolExecutionRequest → ToolPolicy → ToolAccessRequest → PermissionDecision
decide_by_rules engine request policy access = elim (matched_rule engine request.mode access) [
  | some rule ↦ record {
    effect = rule.effect;
    reason = rule_reason rule.effect;
    matched_rule = some rule;
    missing_permissions = [];
  }
  | none ↦ decide_by_policy policy access
]

-- from the check of the effects on
unfoldable pub decide_by_effects :
    PermissionEngine → ToolExecutionRequest → ToolPolicy → ToolAccessRequest → PermissionDecision
unfolding effects_within effects_meet is_high_risk decide_by_rules
decide_by_effects engine request policy access =
    if not (effects_within access.effects policy.declared_effects)
    then decision PermissionEffect.deny "tool_effect_policy_violation"
    else if is_high_risk access.safe_preview
    then decision PermissionEffect.deny "shell_high_risk_forbidden"
    else if effects_meet access.effects engine.denied_effects
    then decision PermissionEffect.deny "runtime_effect_denied"
    else if effects_meet access.effects engine.approval_effects
    then decision PermissionEffect.ask "runtime_effect_requires_approval"
    else decide_by_rules engine request policy access

unfoldable pub decide :
    PermissionEngine → ToolExecutionRequest → ToolPolicy → ToolAccessRequest → PermissionDecision
unfolding contains_forbidden_auth has_mode missing_permissions decide_by_effects
decide engine request policy access =
    if contains_forbidden_auth request.arguments
    then decision PermissionEffect.deny "model_authorization_forbidden"
    else if not (has_mode request.mode policy.allowed_modes)
    then decision PermissionEffect.deny "tool_mode_denied"
    else elim (missing_permissions engine policy) [
      | p ∷ ps ↦ record {
        effect = PermissionEffect.deny;
        reason = "required_permission_missing";
        matched_rule = none;
        missing_permissions = p ∷ ps;
      }
      | [] ↦ decide_by_effects engine request policy access
    ]
