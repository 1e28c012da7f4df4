-- ===== src/Security/Rules.antt =====
-- The rules of the permission engine: which of them match an action on a resource, which of these
-- counts, and the rule that decides for all actions and resources of a call.
pub mod Order
pub mod Strictest
use codepilot_stable.Base.{
  ℕ, String, Bool, true, false, ◌&&◌, ◌||◌, not, Option, none, some, List, [], ◌∷◌, ◌++◌, map,
  filter, contains, ltb, ◌==◌, ◌+◌, if◌then◌else◌,
}
use codepilot_stable.Text.{is_empty}
use codepilot_stable.Text.Glob.{fnmatchcase}
use codepilot_stable.Security.Types.{
  ToolMode, PermissionEffect, ℤ, pos, negsuc, PermissionRule, PermissionEngine, ToolAccessRequest,
  has_mode,
}
use Prim.Native.Char.{code}
use Prim.Native.String as Chars

-- `char not in "*?[]"`
abbrev pub is_plain : ℕ → Bool
is_plain c = not (c == 42 || (c == 63 || (c == 91 || c == 93)))

-- `_pattern_specificity`
unfoldable pub pattern_specificity : String → ℕ
pattern_specificity String.[] = 0
pattern_specificity (String.◌∷◌ c s) =
    let rest = pattern_specificity s in if is_plain (code c) then 1 + rest else rest

abbrev pub effect_rank : PermissionEffect → ℕ
effect_rank PermissionEffect.allow = 0
effect_rank PermissionEffect.ask = 1
effect_rank PermissionEffect.deny = 2

-- `a < b` on Python's `int`
abbrev pub int_lt : ℤ → ℤ → Bool
int_lt (pos a) (pos b) = ltb a b
int_lt (pos a) (negsuc b) = false
int_lt (negsuc a) (pos b) = true
int_lt (negsuc a) (negsuc b) = ltb b a

unfoldable pub specificity : PermissionRule → ℕ
unfolding pattern_specificity
specificity rule =
    pattern_specificity rule.action_pattern + pattern_specificity rule.resource_pattern

-- `rank(a) < rank(b)`, on the tuples of priority, specificity and effect
unfoldable pub ranks_below : PermissionRule → PermissionRule → Bool
unfolding specificity
ranks_below a b =
    int_lt a.priority b.priority
    || (not (int_lt b.priority a.priority)
        && (ltb (specificity a) (specificity b)
            || (not (ltb (specificity b) (specificity a))
                && ltb (effect_rank a.effect) (effect_rank b.effect))))

-- `max(rules, key=rank)`: the first of the highest.
unfoldable pub highest : PermissionRule → List PermissionRule → PermissionRule
unfolding ranks_below
highest best [] = best
highest best (rule ∷ rules) = highest (if ranks_below best rule then rule else best) rules

unfoldable pub rule_matches : ToolMode → String → String → PermissionRule → Bool
unfolding has_mode fnmatchcase
rule_matches mode action uri rule =
    (elim rule.modes [ [] ↦ true | m ∷ ms ↦ has_mode mode (m ∷ ms) ])
    && (fnmatchcase action rule.action_pattern && fnmatchcase uri rule.resource_pattern)

-- the rule that counts for one action on one resource
unfoldable pub best_rule : List PermissionRule → ToolMode → String → String → Option PermissionRule
unfolding rule_matches filter highest
best_rule rules mode action uri = elim (filter (rule_matches mode action uri) rules) [
  | [] ↦ none
  | rule ∷ others ↦ some (highest rule others)
]

-- the pairs that the two loops run through
unfoldable pub pairs : List String → List String → List (String × String)
pairs [] uris = []
pairs (action ∷ actions) uris = map (λ uri. (action, uri)) uris ++ pairs actions uris

-- `tuple(resource.uri for resource in access.resources) or ("",)`
unfoldable pub resource_uris : ToolAccessRequest → List String
resource_uris access = elim access.resources [
  | [] ↦ "" ∷ []
  | r ∷ rs ↦ map (λ resource. resource.uri) (r ∷ rs)
]

-- the rule of each pair, and nothing where one has none
unfoldable pub select_rules :
    List PermissionRule → ToolMode → List (String × String) → Option (List PermissionRule)
select_rules rules mode [] = some []
select_rules rules mode ((action, uri) ∷ rest) = elim (best_rule rules mode action uri) [
  | none ↦ none
  | some rule ↦ elim (select_rules rules mode rest) [
    | none ↦ none
    | some selected ↦ some (rule ∷ selected)
  ]
]

unfoldable pub with_effect : PermissionEffect → List PermissionRule → List PermissionRule
unfolding filter
with_effect effect rules = filter (λ rule. effect_rank rule.effect == effect_rank effect) rules

-- The last loop: rules that deny come first, then those that ask.
unfoldable pub strictest : List PermissionRule → Option PermissionRule
strictest selected = elim (with_effect PermissionEffect.deny selected) [
  | rule ∷ others ↦ some (highest rule others)
  | [] ↦ elim (with_effect PermissionEffect.ask selected) [
    | rule ∷ others ↦ some (highest rule others)
    | [] ↦ elim (with_effect PermissionEffect.allow selected) [
      | rule ∷ others ↦ some (highest rule others)
      | [] ↦ none
    ]
  ]
]

-- `_matched_rule`
unfoldable pub matched_rule :
    PermissionEngine → ToolMode → ToolAccessRequest → Option PermissionRule
matched_rule engine mode access =
    elim (select_rules engine.rules mode (pairs access.actions (resource_uris access))) [
      | none ↦ none
      | some selected ↦ strictest selected
    ]
