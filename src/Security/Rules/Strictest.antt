-- ===== src/Security/Rules/Strictest.antt =====
-- A rule that allows decides for a call only where the rule of every pair allows.
use codepilot_stable.Base.{
  String, Bool, true, false, some, List, [], ◌∷◌, ◌≡◌, refl, ◌==◌, filter, All, arith, Bool-cases,
  Option-cases, List-cases, inl, inr,
}
use codepilot_stable.Security.Types.{
  ToolMode, PermissionEffect, PermissionRule, PermissionEngine, ToolAccessRequest,
}
use codepilot_stable.Security.Rules.{
  effect_rank, highest, best_rule, select_rules, with_effect, strictest, matched_rule, pairs,
  resource_uris,
}
use codepilot_stable.Security.Rules.Order.{IsBest, best_rule-IsBest, highest-keeps, filter-keeps}

-- The highest of the rules that match a pair allows it.
pub HasAllowing : List PermissionRule → ToolMode → String × String → Type 0
HasAllowing rules mode pair =
    (rule : PermissionRule) × IsBest rules mode pair.0 pair.1 rule
    × (rule.effect ≡ PermissionEffect.allow)

has_effect_rank : PermissionEffect → PermissionRule → Bool
has_effect_rank effect rule = effect_rank rule.effect == effect_rank effect

-- The highest of the rules with an effect has that effect.
highest_of_effect :
    (effect : PermissionEffect) (selected others : List PermissionRule) (rule : PermissionRule)
    → with_effect effect selected ≡ rule ∷ others
    → has_effect_rank effect (highest rule others) ≡ true
unfolding with_effect has_effect_rank
highest_of_effect effect selected others rule e =
    let kept = filter-keeps (has_effect_rank effect) selected in
    let kept' : All (λ r. has_effect_rank effect r ≡ true) (rule ∷ others) = rw e at kept in
    highest-keeps (λ r. has_effect_rank effect r ≡ true) rule others kept'.0 kept'.1

none_of_effect :
    (effect : PermissionEffect) (selected : List PermissionRule)
    → with_effect effect selected ≡ []
    → All (λ r. has_effect_rank effect r ≡ false) selected
unfolding with_effect has_effect_rank filter
none_of_effect effect [] e = tt
none_of_effect effect (rule ∷ selected) e = elim (Bool-cases (has_effect_rank effect rule)) [
  | inl has ↦ let e' = rw has at e in absurd (cc)
  | inr lacks ↦ let e' = rw lacks at e in (lacks, none_of_effect effect selected e')
]

-- A rule that allows is not the highest of those with another effect.
not_highest :
    (effect : PermissionEffect) (selected others : List PermissionRule)
    (first rule : PermissionRule)
    → with_effect effect selected ≡ first ∷ others
    → highest first others ≡ rule
    → rule.effect ≡ PermissionEffect.allow
    → effect_rank effect ≡ 0
unfolding has_effect_rank
not_highest effect selected others first rule e same allows =
    let has = highest_of_effect effect selected others first e in
    let has' : (effect_rank rule.effect == effect_rank effect) ≡ true = rw same at has in
    let has_zero : (0 == effect_rank effect) ≡ true = rw allows at has' in grind arith

allows_of_ranks :
    (selected : List PermissionRule)
    → All (λ r. has_effect_rank PermissionEffect.deny r ≡ false) selected
    → All (λ r. has_effect_rank PermissionEffect.ask r ≡ false) selected
    → All (λ r. r.effect ≡ PermissionEffect.allow) selected
unfolding has_effect_rank
allows_of_ranks [] d a = tt
allows_of_ranks (rule ∷ selected) d a =
    (is_allow rule.effect d.0 a.0, allows_of_ranks selected d.1 a.1)
  where
    is_allow :
        (effect : PermissionEffect)
        → (effect_rank effect == 2) ≡ false
        → (effect_rank effect == 1) ≡ false
        → effect ≡ PermissionEffect.allow
    is_allow PermissionEffect.allow h k = refl
    is_allow PermissionEffect.deny h k = cc
    is_allow PermissionEffect.ask h k = cc

strictest-allow :
    (selected : List PermissionRule) (rule : PermissionRule)
    → strictest selected ≡ some rule
    → rule.effect ≡ PermissionEffect.allow
    → All (λ r. r.effect ≡ PermissionEffect.allow) selected
unfolding strictest
strictest-allow selected rule h allows =
    elim (List-cases (with_effect PermissionEffect.deny selected)) [
      | inr (first, others, denies) ↦
          let h' = rw (denies, strictest) at h in
          absurd (
            omega (
              arith,
              not_highest PermissionEffect.deny selected others first rule denies (cc) allows,
            ))
      | inl undenied ↦ elim (List-cases (with_effect PermissionEffect.ask selected)) [
        | inr (first, others, asks) ↦
            let h' = rw (undenied, asks, strictest) at h in
            absurd (
              omega (
                arith,
                not_highest PermissionEffect.ask selected others first rule asks (cc) allows,
              ))
        | inl unasked ↦
            allows_of_ranks selected (none_of_effect PermissionEffect.deny selected undenied)
              (none_of_effect PermissionEffect.ask selected unasked)
      ]
    ]

select_rules-allow :
    (rules : List PermissionRule) (mode : ToolMode) (ps : List (String × String))
    (selected : List PermissionRule)
    → select_rules rules mode ps ≡ some selected
    → All (λ r. r.effect ≡ PermissionEffect.allow) selected
    → All (HasAllowing rules mode) ps
unfolding select_rules HasAllowing
select_rules-allow rules mode [] selected h allows = tt
select_rules-allow rules mode ((action, uri) ∷ ps) selected h allows =
    elim (Option-cases (best_rule rules mode action uri)) [
      | inl missing ↦ let h' = rw (missing, select_rules) at h in absurd (cc)
      | inr (best, found) ↦ elim (Option-cases (select_rules rules mode ps)) [
        | inl missing ↦ let h' = rw (found, missing, select_rules) at h in absurd (cc)
        | inr (rest, selects) ↦
            let h' = rw (found, selects, select_rules) at h in
            let e : selected ≡ best ∷ rest = cc in
            let allows' = rw e at allows in
            (
              (best, best_rule-IsBest rules mode action uri best found, allows'.0),
              select_rules-allow rules mode ps rest selects allows'.1,
            )
      ]
    ]

pub matched_rule-allow :
    (engine : PermissionEngine) (mode : ToolMode) (access : ToolAccessRequest)
    (rule : PermissionRule)
    → matched_rule engine mode access ≡ some rule
    → rule.effect ≡ PermissionEffect.allow
    → All (HasAllowing engine.rules mode) (pairs access.actions (resource_uris access))
unfolding matched_rule
matched_rule-allow engine mode access rule h allows =
    let ps = pairs access.actions (resource_uris access) in
    elim (Option-cases (select_rules engine.rules mode ps)) [
      | inl missing ↦ let h' = rw (missing, matched_rule) at h in absurd (cc)
      | inr (selected, selects) ↦
          let h' = rw (selects, matched_rule) at h in
          select_rules-allow engine.rules mode ps selected selects
            (strictest-allow selected rule h' allows)
    ]
