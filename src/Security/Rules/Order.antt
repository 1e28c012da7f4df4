-- ===== src/Security/Rules/Order.antt =====
-- The rank of the rules is a total preorder, so that the rule chosen for a pair has none above it.
use mathlib.Core.Path.{subst}
use codepilot_stable.Base.{
  String, Bool, true, false, none, some, List, [], ◌∷◌, ◌≡◌, filter, All, arith, Bool-cases, inl,
  inr, if◌then◌else◌,
}
use codepilot_stable.Security.Types.{ToolMode, ℤ, pos, negsuc, PermissionRule}
use codepilot_stable.Security.Rules.{int_lt, ranks_below, highest, best_rule, rule_matches}

int_lt_trans : (a b c : ℤ) → int_lt a b ≡ false → int_lt b c ≡ false → int_lt a c ≡ false
int_lt_trans (pos a) (pos b) (pos c) h k = ground arith
int_lt_trans (pos a) (pos b) (negsuc c) h k = ground arith
int_lt_trans (pos a) (negsuc b) (pos c) h k = ground arith
int_lt_trans (pos a) (negsuc b) (negsuc c) h k = ground arith
int_lt_trans (negsuc a) (pos b) (pos c) h k = ground arith
int_lt_trans (negsuc a) (pos b) (negsuc c) h k = ground arith
int_lt_trans (negsuc a) (negsuc b) (pos c) h k = ground arith
int_lt_trans (negsuc a) (negsuc b) (negsuc c) h k = ground arith

int_lt_asym : (a b : ℤ) → int_lt a b ≡ true → int_lt b a ≡ false
int_lt_asym (pos a) (pos b) h = ground arith
int_lt_asym (pos a) (negsuc b) h = ground arith
int_lt_asym (negsuc a) (pos b) h = ground arith
int_lt_asym (negsuc a) (negsuc b) h = ground arith

pub ranks_below_trans :
    (a b c : PermissionRule)
    → ranks_below a b ≡ false
    → ranks_below b c ≡ false
    → ranks_below a c ≡ false
unfolding ranks_below
ranks_below_trans a b c h k =
    let t = int_lt_trans a.priority b.priority c.priority in
    let u = int_lt_trans b.priority c.priority a.priority in
    let v = int_lt_trans c.priority a.priority b.priority in ground (arith, t, u, v)

ranks_below_asym : (a b : PermissionRule) → ranks_below a b ≡ true → ranks_below b a ≡ false
unfolding ranks_below
ranks_below_asym a b h = let t = int_lt_asym a.priority b.priority in ground (arith, t)

irreflexive : (r : PermissionRule) → ranks_below r r ≡ false
irreflexive r = elim (Bool-cases (ranks_below r r)) [
  | inl below ↦ ranks_below_asym r r below
  | inr other ↦ other
]

better : PermissionRule → PermissionRule → PermissionRule
better best rule = if ranks_below best rule then rule else best

better-above :
    (best rule : PermissionRule)
    → (ranks_below (better best rule) best ≡ false) × (ranks_below (better best rule) rule ≡ false)
unfolding better
better-above best rule = elim (Bool-cases (ranks_below best rule)) [
  | inl below ↦ rw below (ranks_below_asym best rule below, irreflexive rule)
  | inr other ↦ rw other (irreflexive best, other)
]

highest-above :
    (best : PermissionRule) (rules : List PermissionRule)
    → (ranks_below (highest best rules) best ≡ false)
      × All (λ rule. ranks_below (highest best rules) rule ≡ false) rules
unfolding highest better
highest-above best [] = (irreflexive best, tt)
highest-above best (rule ∷ rules) =
    let above = highest-above (better best rule) rules in
    let step = better-above best rule in
    let top = highest (better best rule) rules in
    (
      ranks_below_trans top (better best rule) best above.0 step.0,
      (ranks_below_trans top (better best rule) rule above.0 step.1, above.1),
    )

-- what holds of all of some rules holds of the highest of them
pub highest-keeps {ℓ} :
    (P : PermissionRule → Type ℓ) (best : PermissionRule) (rules : List PermissionRule)
    → P best
    → All P rules
    → P (highest best rules)
unfolding highest
highest-keeps P best [] h hs = h
highest-keeps P best (rule ∷ rules) h hs = elim (Bool-cases (ranks_below best rule)) [
  | inl below ↦ rw below (highest-keeps P rule rules hs.0 hs.1)
  | inr other ↦ rw other (highest-keeps P best rules h hs.1)
]

module _ {ℓ} {A : Type ℓ} (test : A → Bool) where
  pub filter-keeps : (xs : List A) → All (λ x. test x ≡ true) (filter test xs)
  unfolding filter
  filter-keeps [] = tt
  filter-keeps (x ∷ xs) = elim (Bool-cases (test x)) [
    | inl passes ↦ rw passes (passes, filter-keeps xs)
    | inr fails ↦ rw fails (filter-keeps xs)
  ]

  pub All-filter {κ} :
      (P : A → Type κ) (xs : List A) → All P (filter test xs) → All (λ x. test x ≡ true → P x) xs
  unfolding filter
  All-filter P [] h = tt
  All-filter P (x ∷ xs) h = elim (Bool-cases (test x)) [
    | inl passes ↦ let h' = rw passes at h in (λ _. h'.0, All-filter P xs h'.1)
    | inr fails ↦ let h' = rw fails at h in (λ passes. absurd (cc), All-filter P xs h')
  ]

-- The rule that counts for a pair matches it, and no rule that matches ranks above it.
pub IsBest : List PermissionRule → ToolMode → String → String → PermissionRule → Type 0
IsBest rules mode action uri best =
    (rule_matches mode action uri best ≡ true)
    × All (λ rule. rule_matches mode action uri rule ≡ true → ranks_below best rule ≡ false) rules

first_of :
    (test : PermissionRule → Bool) {rule : PermissionRule} (found : List PermissionRule)
    → (elim found [ [] ↦ none | best ∷ others ↦ some (highest best others) ]) ≡ some rule
    → (All (λ x. test x ≡ true) found → test rule ≡ true)
      × All (λ x. ranks_below rule x ≡ false) found
first_of test [] h = cc
first_of test (best ∷ others) h =
    let e : highest best others ≡ _ = cc in
    subst
      (λ r.
        (All (λ x. test x ≡ true) (best ∷ others) → test r ≡ true)
        × All (λ x. ranks_below r x ≡ false) (best ∷ others))
      e (λ hs. highest-keeps (λ x. test x ≡ true) best others hs.0 hs.1, highest-above best others)

pub best_rule-IsBest :
    (rules : List PermissionRule) (mode : ToolMode) (action uri : String) (rule : PermissionRule)
    → best_rule rules mode action uri ≡ some rule
    → IsBest rules mode action uri rule
unfolding best_rule IsBest
best_rule-IsBest rules mode action uri rule h =
    let found =
      first_of (rule_matches mode action uri) (filter (rule_matches mode action uri) rules) h in
    (
      found.0 (filter-keeps (rule_matches mode action uri) rules),
      All-filter (rule_matches mode action uri) _ rules found.1,
    )
