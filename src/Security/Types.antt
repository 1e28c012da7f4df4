-- ===== src/Security/Types.antt =====
-- The closed sets of words and the values of tools/security.py, and the request of
-- tools/contracts.py. A Python set is a list here; only membership in it is asked. Metadata of a
-- resource, and the fields of a request that the engine and the store do not read, are left out.
use codepilot_stable.Base.{ℕ, String, Bool, Option, List, any, ◌==◌, all}

pub data ToolMode : Type 0 where
  plan execute unrestricted : ToolMode

pub data RiskLevel : Type 0 where
  low medium high critical : RiskLevel

pub data ApprovalPolicy : Type 0 where
  never on_risk always : ApprovalPolicy

pub data ToolEffectKind : Type 0 where
  filesystem_read filesystem_write filesystem_delete process_spawn network_access credential_access
        external_state_read external_state_write session_state_read session_state_write :
      ToolEffectKind

pub data PermissionEffect : Type 0 where
  allow deny ask : PermissionEffect

pub data RuleSource : Type 0 where
  configuration project runtime : RuleSource

pub data ApprovalScope : Type 0 where
  once session project : ApprovalScope

pub data ApprovalDecisionValue : Type 0 where
  approve deny : ApprovalDecisionValue

-- A Python `int`: `negsuc n` is -(n + 1).
pub data ℤ : Type 0 where
  pos negsuc : ℕ → ℤ

-- A JSON value as the checks of a call see it; `scalar` is a number, a bool or `null`.
mutual
  pub data Json : Type 0 where
    text : String → Json
    scalar : String → Json
    sequence : Items → Json
    mapping : Fields → Json

  pub data Items : Type 0 where
    no_items : Items
    item : Json → Items → Items

  pub data Fields : Type 0 where
    no_fields : Fields
    field : String → Json → Fields → Fields

pub record ToolExecutionRequest : Type 0 where
  pub run_id : String
  pub session_id : String
  pub tool_call_id : String
  pub tool_name : String
  pub arguments : Json
  pub mode : ToolMode
  pub registration_id : String
  pub argument_parse_error : Option String

pub record ToolPolicy : Type 0 where
  pub allowed_modes : List ToolMode
  pub declared_effects : List ToolEffectKind
  pub required_permissions : List String
  pub base_risk : RiskLevel
  pub approval : ApprovalPolicy

pub record ToolResource : Type 0 where
  pub uri : String

pub record ToolAccessRequest : Type 0 where
  pub actions : List String
  pub resources : List ToolResource
  pub effects : List ToolEffectKind
  pub risk : RiskLevel
  pub reason : String
  pub safe_preview : Fields
  pub approval_scopes : List ApprovalScope

pub record PermissionRule : Type 0 where
  pub action_pattern : String
  pub resource_pattern : String
  pub effect : PermissionEffect
  pub modes : List ToolMode
  pub source : RuleSource
  pub priority : ℤ

-- `missing_permissions` is what `details` holds under this key.
pub record PermissionDecision : Type 0 where
  pub effect : PermissionEffect
  pub reason : String
  pub matched_rule : Option PermissionRule
  pub missing_permissions : List String

pub record PermissionEngine : Type 0 where
  pub rules : List PermissionRule
  pub denied_effects : List ToolEffectKind
  pub approval_effects : List ToolEffectKind
  pub granted_permissions : List String

pub record ApprovalChallenge : Type 0 where
  pub approval_id : String
  pub request_fingerprint : String
  pub run_id : String
  pub session_id : String
  pub tool_call_id : String
  pub tool_name : String
  pub registration_id : String
  pub actions : List String
  pub resources : List ToolResource
  pub effects : List ToolEffectKind
  pub risk : RiskLevel
  pub reason : String
  pub safe_preview : Fields
  pub allowed_scopes : List ApprovalScope
  pub expires_at_ms : Option ℕ

pub record ApprovalResponse : Type 0 where
  pub approval_id : String
  pub request_fingerprint : String
  pub decision : ApprovalDecisionValue
  pub scope : ApprovalScope
  pub reason : String

pub record ApprovalGrant : Type 0 where
  pub grant_id : String
  pub approval_id : String
  pub request_fingerprint : String
  pub scope : ApprovalScope
  pub actions : List String
  pub resources : List ToolResource
  pub effects : List ToolEffectKind
  pub risk : RiskLevel
  pub issued_at_ms : ℕ
  pub expires_at_ms : Option ℕ

-- `_RISK_RANK`
abbrev pub risk_rank : RiskLevel → ℕ
risk_rank RiskLevel.low = 0
risk_rank RiskLevel.medium = 1
risk_rank RiskLevel.high = 2
risk_rank RiskLevel.critical = 3

abbrev pub mode_index : ToolMode → ℕ
mode_index ToolMode.plan = 0
mode_index ToolMode.execute = 1
mode_index ToolMode.unrestricted = 2

abbrev pub effect_index : ToolEffectKind → ℕ
effect_index ToolEffectKind.filesystem_read = 0
effect_index ToolEffectKind.filesystem_write = 1
effect_index ToolEffectKind.filesystem_delete = 2
effect_index ToolEffectKind.process_spawn = 3
effect_index ToolEffectKind.network_access = 4
effect_index ToolEffectKind.credential_access = 5
effect_index ToolEffectKind.external_state_read = 6
effect_index ToolEffectKind.external_state_write = 7
effect_index ToolEffectKind.session_state_read = 8
effect_index ToolEffectKind.session_state_write = 9

-- `mode in modes`
unfoldable pub has_mode : ToolMode → List ToolMode → Bool
unfolding any
has_mode mode modes = any (λ m. mode_index m == mode_index mode) modes

-- `kind in kinds`
unfoldable pub has_effect : ToolEffectKind → List ToolEffectKind → Bool
unfolding any
has_effect kind kinds = any (λ k. effect_index k == effect_index kind) kinds

-- `kinds <= allowed`
unfoldable pub effects_within : List ToolEffectKind → List ToolEffectKind → Bool
unfolding has_effect all
effects_within kinds allowed = all (λ kind. has_effect kind allowed) kinds

-- `bool(kinds & others)`
unfoldable pub effects_meet : List ToolEffectKind → List ToolEffectKind → Bool
unfolding has_effect any
effects_meet kinds others = any (λ kind. has_effect kind others) kinds
