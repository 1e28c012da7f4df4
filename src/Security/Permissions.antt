-- ===== src/Security/Permissions.antt =====
-- The tests of tools/security.py on a call before any rule is looked at: forbidden words in its
-- arguments, permissions that are not granted, and the preview of a shell command.
use codepilot_stable.Base.{
  String, Bool, false, ◌||◌, not, List, [], ◌∷◌, any, filter, contains, str_eq, if◌then◌else◌,
}
use codepilot_stable.Base.Sorting.{sort_by}
use codepilot_stable.Text.Glob.{fnmatchcase}
use codepilot_stable.Security.Types.{
  Json, Items, Fields, text, scalar, sequence, mapping, no_items, item, no_fields, field,
  PermissionEngine, ToolPolicy,
}

-- `_FORBIDDEN_MODEL_AUTH_KEYS`
abbrev pub forbidden_model_auth_keys : List String
forbidden_model_auth_keys =
    "allow_dangerous" ∷ "bypass_approval" ∷ "ignore_workspace_boundary" ∷ "trusted" ∷ "sudo"
    ∷ "force_without_approval" ∷ []

unfoldable mutual
  unfolding contains

  pub contains_forbidden_auth : Json → Bool
  contains_forbidden_auth (text s) = false
  contains_forbidden_auth (scalar s) = false
  contains_forbidden_auth (sequence items) = forbidden_items items
  contains_forbidden_auth (mapping fields) = forbidden_fields fields

  -- the items of a list
  pub forbidden_items : Items → Bool
  forbidden_items no_items = false
  forbidden_items (item value items) = contains_forbidden_auth value || forbidden_items items

  -- the keys and the values of a mapping
  pub forbidden_fields : Fields → Bool
  forbidden_fields no_fields = false
  forbidden_fields (field key value fields) =
      contains key forbidden_model_auth_keys
      || (contains_forbidden_auth value || forbidden_fields fields)

-- `preview.get("shell_class") == "high_risk"`
unfoldable pub is_high_risk : Fields → Bool
is_high_risk no_fields = false
is_high_risk (field key value fields) =
    let rest = is_high_risk fields in
    if str_eq key "shell_class"
    then elim value [ text s ↦ str_eq s "high_risk" | _ ↦ false ]
    else rest

unfoldable pub is_granted : List String → String → Bool
unfolding any
is_granted patterns permission = any (λ pattern. fnmatchcase permission pattern) patterns

unfoldable pub missing_permissions : PermissionEngine → ToolPolicy → List String
unfolding is_granted
missing_permissions engine policy =
    sort_by (λ p. p)
      (filter (λ p. not (is_granted engine.granted_permissions p)) policy.required_permissions)
