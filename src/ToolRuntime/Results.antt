-- ===== src/ToolRuntime/Results.antt =====
-- The results that tools/runtime.py builds: which of them pass the checks of their classes.
use Prim.Native.Nat.{max}
use Prim.Native.Char.{Char, code}
use Prim.Native.String.{◌++◌}
use mathlib.Core.Path.{subst}
use text.Mathlib.TextLemmas.{cons-append}
use codepilot_stable.Base.{
  String, true, false, Option, none, some, [], ◌∷◌, ◌≡◌, refl, sym, ok, inl, inr, if◌then◌else◌,
  Option-cases, List-cases, All, ◌&&◌, not, leb, List, Bool, ◌⊎◌,
}
use codepilot_stable.Literals.{ToolStatus, ToolErrorKind}
use codepilot_stable.Text.{is_space, is_empty, lstrip, rstrip, strip}
use codepilot_stable.Tools.{ToolResult, require_text, new_tool_error, init_result}
use codepilot_stable.Security.Types.{
  ToolExecutionRequest, ApprovalChallenge, PermissionEngine, PermissionEffect, PermissionDecision,
  PermissionRule, ToolPolicy, ToolAccessRequest, RiskLevel, risk_rank, has_mode, effects_within,
  effects_meet,
}
use codepilot_stable.Security.Engine.{
  decide, decide_by_effects, decide_by_rules, decide_by_policy, rule_reason, decision, is_always,
  is_on_risk,
}
use codepilot_stable.Security.Rules.{matched_rule}
use codepilot_stable.Security.Permissions.{
  missing_permissions, contains_forbidden_auth, is_high_risk,
}
use codepilot_stable.ToolRuntime.Types.{failure, approval_result, approval_consumed}

-- A text that is not blank, without blanks around it: what the checks leave of a text.
abbrev pub IsText : String → Type 0
IsText s = require_text s ≡ ok s

abbrev pub IsTextOrNone : Option String → Type 0
IsTextOrNone none = Unit
IsTextOrNone (some s) = IsText s

-- What `ToolExecutionRequest.__post_init__` leaves of the texts that a result is made of.
abbrev pub IsChecked : ToolExecutionRequest → Type 0
IsChecked request =
    IsText request.tool_call_id
    × IsText request.tool_name
    × IsText request.registration_id
    × IsTextOrNone request.argument_parse_error

-- A text that is not blank
abbrev pub IsShowable : String → Type 0
IsShowable message = (text : String) × (require_text message ≡ ok text)

starts-IsShowable :
    (c : Char) (s : String) → is_space (code c) ≡ false → IsShowable (String.◌∷◌ c s)
unfolding require_text lstrip rstrip strip is_empty
starts-IsShowable c s h = rw (h, h) (_, refl)

starts-IsShowable_append :
    (c : Char) (s t : String) → is_space (code c) ≡ false → IsShowable (String.◌∷◌ c s ++ t)
starts-IsShowable_append c s t h =
    subst IsShowable (sym (cons-append c s t)) (starts-IsShowable c (s ++ t) h)

pub not_found-IsShowable : (name : String) → IsShowable ("Tool registration not found: " ++ name)
unfolding is_space
not_found-IsShowable name = starts-IsShowable_append "T" "ool registration not found: " name refl

pub stale-IsShowable : (text : String) → IsShowable ("Tool registration is stale: " ++ text)
unfolding is_space
stale-IsShowable text = starts-IsShowable_append "T" "ool registration is stale: " text refl

pub conflict-IsShowable : (id : String) → IsShowable ("Tool attempt already exists: " ++ id)
unfolding is_space
conflict-IsShowable id = starts-IsShowable_append "T" "ool attempt already exists: " id refl

-- the codes of the failures
pub codes-AreTexts : All IsText (
    "tool.state.conflict" ∷ "tool.arguments.invalid_json" ∷ "tool.registration.not_found"
    ∷ "tool.registration.stale" ∷ "tool.input.invalid" ∷ "tool.access.invalid"
    ∷ "tool.permission.denied" ∷ "tool.approval.consumed" ∷ "Approval has already been consumed"
    ∷ [])
unfolding require_text is_space is_empty lstrip rstrip strip
codes-AreTexts = (refl, (refl, (refl, (refl, (refl, (refl, (refl, (refl, (refl, tt)))))))))

-- The reasons that the permission engine gives are fixed texts.
reasons-AreTexts : All IsText (
    "model_authorization_forbidden" ∷ "tool_mode_denied" ∷ "required_permission_missing"
    ∷ "tool_effect_policy_violation" ∷ "shell_high_risk_forbidden" ∷ "runtime_effect_denied"
    ∷ "runtime_effect_requires_approval" ∷ "tool_policy_requires_approval"
    ∷ "tool_risk_requires_approval" ∷ "tool_policy_allow" ∷ [])
unfolding require_text is_space is_empty lstrip rstrip strip
reasons-AreTexts =
    (refl, (refl, (refl, (refl, (refl, (refl, (refl, (refl, (refl, (refl, tt))))))))))

rule_reason-IsText : (effect : PermissionEffect) → IsText (rule_reason effect)
unfolding require_text is_space is_empty lstrip rstrip strip
rule_reason-IsText PermissionEffect.allow = refl
rule_reason-IsText PermissionEffect.deny = refl
rule_reason-IsText PermissionEffect.ask = refl

abbrev rule_decision : PermissionRule → PermissionDecision
rule_decision rule = record {
  effect = rule.effect;
  reason = rule_reason rule.effect;
  matched_rule = some rule;
  missing_permissions = [];
}

abbrev missing_decision : String → List String → PermissionDecision
missing_decision p ps = record {
  effect = PermissionEffect.deny;
  reason = "required_permission_missing";
  matched_rule = none;
  missing_permissions = p ∷ ps;
}

-- A decision whose reason is a text. Its definition stays closed where the decisions are compared.
unfoldable GivesText : PermissionDecision → Type 0
GivesText d = IsText d.reason

reason-GivesText :
    (effect : PermissionEffect) (reason : String)
    → IsText reason
    → GivesText (decision effect reason)
unfolding GivesText
reason-GivesText effect reason is_text = is_text

if-GivesText :
    (test : Bool) (d e : PermissionDecision)
    → GivesText d
    → GivesText e
    → GivesText (if test then d else e)
if-GivesText true d e first second = first
if-GivesText false d e first second = second

decide_by_policy-GivesText :
    (policy : ToolPolicy) (access : ToolAccessRequest) → GivesText (decide_by_policy policy access)
unfolding decide_by_policy
decide_by_policy-GivesText policy access =
    let texts = reasons-AreTexts.1.1.1.1.1.1.1 in
    if-GivesText (is_always policy.approval) _ _ (reason-GivesText PermissionEffect.ask _ texts.0) (
      if-GivesText
        (is_on_risk policy.approval
          && leb (risk_rank RiskLevel.medium)
              (max (risk_rank policy.base_risk) (risk_rank access.risk)))
        _ _ (reason-GivesText PermissionEffect.ask _ texts.1.0)
        (reason-GivesText PermissionEffect.allow _ texts.1.1.0))

rule-GivesText : (rule : PermissionRule) → GivesText (rule_decision rule)
unfolding GivesText
rule-GivesText rule = rule_reason-IsText rule.effect

decide_by_rules-GivesText :
    (engine : PermissionEngine) (request : ToolExecutionRequest) (policy : ToolPolicy)
    (access : ToolAccessRequest)
    → GivesText (decide_by_rules engine request policy access)
unfolding decide_by_rules
decide_by_rules-GivesText engine request policy access =
    elim (Option-cases (matched_rule engine request.mode access)) [
      | inl silent ↦ rw (decide_by_rules, silent) (decide_by_policy-GivesText policy access)
      | inr (rule, found) ↦ rw (decide_by_rules, found) (rule-GivesText rule)
    ]

decide_by_effects-GivesText :
    (engine : PermissionEngine) (request : ToolExecutionRequest) (policy : ToolPolicy)
    (access : ToolAccessRequest)
    → GivesText (decide_by_effects engine request policy access)
unfolding decide_by_effects
decide_by_effects-GivesText engine request policy access =
    let texts = reasons-AreTexts.1.1.1 in
    if-GivesText (not (effects_within access.effects policy.declared_effects)) _ _
      (reason-GivesText PermissionEffect.deny _ texts.0)
      (if-GivesText (is_high_risk access.safe_preview) _ _
        (reason-GivesText PermissionEffect.deny _ texts.1.0)
        (if-GivesText (effects_meet access.effects engine.denied_effects) _ _
          (reason-GivesText PermissionEffect.deny _ texts.1.1.0)
          (if-GivesText (effects_meet access.effects engine.approval_effects) _ _
            (reason-GivesText PermissionEffect.ask _ texts.1.1.1.0)
            (decide_by_rules-GivesText engine request policy access))))

missing-GivesText : (p : String) (ps : List String) → GivesText (missing_decision p ps)
unfolding GivesText
missing-GivesText p ps = reasons-AreTexts.1.1.0

decide-GivesText :
    (engine : PermissionEngine) (request : ToolExecutionRequest) (policy : ToolPolicy)
    (access : ToolAccessRequest)
    → GivesText (decide engine request policy access)
unfolding decide
decide-GivesText engine request policy access =
    elim (List-cases (missing_permissions engine policy)) [
      | inl none_missing ↦
          rw (decide, none_missing)
            (if-GivesText (contains_forbidden_auth request.arguments) _ _
              (reason-GivesText _ _ reasons-AreTexts.0)
              (if-GivesText (not (has_mode request.mode policy.allowed_modes)) _ _
                (reason-GivesText _ _ reasons-AreTexts.1.0)
                (decide_by_effects-GivesText engine request policy access)))
      | inr (p, ps, are_missing) ↦
          rw (decide, are_missing)
            (if-GivesText (contains_forbidden_auth request.arguments) _ _
              (reason-GivesText _ _ reasons-AreTexts.0)
              (if-GivesText (not (has_mode request.mode policy.allowed_modes)) _ _
                (reason-GivesText _ _ reasons-AreTexts.1.0) (missing-GivesText p ps)))
    ]

pub decide_reason-IsText :
    (engine : PermissionEngine) (request : ToolExecutionRequest) (policy : ToolPolicy)
    (access : ToolAccessRequest)
    → IsText (decide engine request policy access).reason
unfolding GivesText
decide_reason-IsText = decide-GivesText

pub failure_returns :
    (request : ToolExecutionRequest) (code : String) (kind : ToolErrorKind) (message : String)
    (status : ToolStatus) (retryable : Bool)
    → IsChecked request
    → IsText code
    → IsShowable message
    → (status ≡ ToolStatus.error) ⊎ (status ≡ ToolStatus.denied)
    → (result : ToolResult) × (failure request code kind message status retryable ≡ ok result)
unfolding failure new_tool_error init_result
failure_returns request code kind message status retryable checked named shown (inl is_error) =
    rw (named, shown.1, is_error, checked.0, checked.1, checked.2) (_, refl)
failure_returns request code kind message status retryable checked named shown (inr is_denied) =
    rw (named, shown.1, is_denied, checked.0, checked.1, checked.2) (_, refl)

pub approval_result_returns :
    (request : ToolExecutionRequest) (challenge : ApprovalChallenge)
    → IsChecked request
    → (result : ToolResult) × (approval_result request challenge ≡ ok result)
unfolding approval_result init_result
approval_result_returns request challenge checked = rw (checked.0, checked.1, checked.2) (_, refl)

pub approval_consumed_returns :
    (request : ToolExecutionRequest)
    → IsChecked request
    → (result : ToolResult) × (approval_consumed request ≡ ok result)
approval_consumed_returns request checked =
    failure_returns request "tool.approval.consumed" ToolErrorKind.approval
      "Approval has already been consumed" ToolStatus.error false checked
      codes-AreTexts.1.1.1.1.1.1.1.0 (_, codes-AreTexts.1.1.1.1.1.1.1.1.0) (inl refl)
