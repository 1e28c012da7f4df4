-- ===== src/Base/Lists.antt =====
-- Lists as Python's tuples and sets of texts.
use Prim.Native.Nat.{ℕ, suc}
use Prim.Native.String.{String}
use mathlib.Core.Bool.{Bool, true, false, ◌&&◌, ◌||◌, not}
use mathlib.Core.List.{List, [], ◌∷◌}
use text.Mathlib.Text.{◌==◌}
use codepilot_stable.Base.Tests.{if◌then◌else◌}

module _ {ℓ} {A : Type ℓ} where
  abbrev pub length : List A → ℕ
  length [] = 0
  length (x ∷ xs) = suc (length xs)

  unfoldable pub any : (A → Bool) → List A → Bool
  any p [] = false
  any p (x ∷ xs) = p x || any p xs

  unfoldable pub all : (A → Bool) → List A → Bool
  all p [] = true
  all p (x ∷ xs) = p x && all p xs

  -- what holds of each element
  abbrev pub All {κ} : (A → Type κ) → List A → Type κ
  All P [] = Unit
  All P (x ∷ xs) = P x × All P xs

  -- where an element stands in a list
  pub data Holds (x : A) : List A → Type ℓ where
    front : {xs : List A} → Holds x (x ∷ xs)
    behind : {y : A} {xs : List A} → Holds x xs → Holds x (y ∷ xs)

  -- `tuple(x for x in xs if p(x))`
  unfoldable pub filter : (A → Bool) → List A → List A
  filter p [] = []
  filter p (x ∷ xs) = let rest = filter p xs in if p x then x ∷ rest else rest

  -- `sum(p(x) for x in xs)`
  unfoldable pub count : (A → Bool) → List A → ℕ
  count p [] = 0
  count p (x ∷ xs) = let rest = count p xs in if p x then suc rest else rest

-- `x in xs`
unfoldable pub contains : String → List String → Bool
contains a xs = any (λ x. x == a) xs

-- `tuple(dict.fromkeys(xs))`: the first of each text, in order
unfoldable pub from_keys : List String → List String
from_keys [] = []
from_keys (x ∷ xs) = x ∷ filter (λ y. not (y == x)) (from_keys xs)
