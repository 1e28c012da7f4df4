-- ===== src/Base/Dedup.antt =====
-- Laws of `from_keys`, Python's `dict.fromkeys`.
use mathlib.Core.List.{List, [], ◌∷◌}
use mathlib.Core.Path.{◌≡◌, refl, sym, ap, ◌∙◌}
use mathlib.Core.Bool.{Bool, false, not}
use mathlib.Core.Logic.{inl, inr}
use Prim.Native.String.{String}
use Prim.Native.Nat.{◌≤◌}
use native.Mathlib.Omega.{arith}
use text.Mathlib.Text.{◌==◌}
use text.Mathlib.TextEquality.{eq_iff}
use codepilot_stable.Base.Tests.{Bool-cases}
use codepilot_stable.Base.Lists.{length, filter, from_keys, any, contains}

module _ {ℓ} {A : Type ℓ} where
  pub filter_comm : (p q : A → Bool) (xs : List A) → filter p (filter q xs) ≡ filter q (filter p xs)
  unfolding filter
  filter_comm p q [] = refl
  filter_comm p q (x ∷ xs) = ground (arith, filter_comm p q xs)

  -- What `q` drops, `p` drops too.
  pub filter-filter_of_weaker :
      (p q : A → Bool) (xs : List A)
      → ((x : A) → q x ≡ false → p x ≡ false)
      → filter p (filter q xs) ≡ filter p xs
  unfolding filter
  filter-filter_of_weaker p q [] h = refl
  filter-filter_of_weaker p q (x ∷ xs) h = ground (arith, filter-filter_of_weaker p q xs h, h x)

pub not_eq_of :
    (p : String → Bool) (x y : String) → p x ≡ false → not (y == x) ≡ false → p y ≡ false
not_eq_of p x y h k = ground (arith, eq_iff y x)

pub from_keys-filter :
    (p : String → Bool) (xs : List String) → from_keys (filter p xs) ≡ filter p (from_keys xs)
unfolding from_keys filter
from_keys-filter p [] = refl
from_keys-filter p (x ∷ xs) = elim (Bool-cases (p x)) [
  | inl e ↦ rw (e, from_keys-filter p xs) (ap (λ l. x ∷ l) (filter_comm _ p (from_keys xs)))
  | inr e ↦ rw (
    e,
    from_keys-filter p xs,
    filter-filter_of_weaker p _ (from_keys xs) (λ y. not_eq_of p x y e),
  )
]

pub from_keys_idem : (xs : List String) → from_keys (from_keys xs) ≡ from_keys xs
unfolding from_keys
from_keys_idem [] = refl
from_keys_idem (x ∷ xs) =
    let q = λ (y : String). not (y == x) in
    ap (λ l. x ∷ l)
      (rw (from_keys-filter q (from_keys xs), from_keys_idem xs)
        (filter-filter_of_weaker q q (from_keys xs) (λ y h. h)))

-- No text occurs twice.
abbrev pub NoRepeats : List String → Type 0
NoRepeats [] = Unit
NoRepeats (x ∷ xs) = (contains x xs ≡ false) × NoRepeats xs

contains-filter_of_false :
    (p : String → Bool) (x : String) (xs : List String)
    → contains x xs ≡ false
    → contains x (filter p xs) ≡ false
unfolding contains any filter
contains-filter_of_false p x [] h = refl
contains-filter_of_false p x (y ∷ ys) h = ground (arith, contains-filter_of_false p x ys)

contains-filter_ne :
    (x : String) (xs : List String) → contains x (filter (λ y. not (y == x)) xs) ≡ false
unfolding contains any filter
contains-filter_ne x [] = refl
contains-filter_ne x (y ∷ ys) = ground (arith, contains-filter_ne x ys)

filter-NoRepeats : (p : String → Bool) (xs : List String) → NoRepeats xs → NoRepeats (filter p xs)
unfolding filter
filter-NoRepeats p [] h = tt
filter-NoRepeats p (x ∷ xs) h = elim (Bool-cases (p x)) [
  | inl e ↦ rw e (contains-filter_of_false p x xs h.0, filter-NoRepeats p xs h.1)
  | inr e ↦ rw e (filter-NoRepeats p xs h.1)
]

pub from_keys-NoRepeats : (xs : List String) → NoRepeats (from_keys xs)
unfolding from_keys
from_keys-NoRepeats [] = tt
from_keys-NoRepeats (x ∷ xs) = (
  contains-filter_ne x (from_keys xs),
  filter-NoRepeats _ (from_keys xs) (from_keys-NoRepeats xs),
)

filter_ne-eq_of_not-contains :
    (x : String) (xs : List String) → contains x xs ≡ false → filter (λ y. not (y == x)) xs ≡ xs
unfolding contains any filter
filter_ne-eq_of_not-contains x [] h = refl
filter_ne-eq_of_not-contains x (y ∷ ys) h = ground (arith, filter_ne-eq_of_not-contains x ys)

pub from_keys-eq_of_NoRepeats : (xs : List String) → NoRepeats xs → from_keys xs ≡ xs
unfolding from_keys
from_keys-eq_of_NoRepeats [] h = refl
from_keys-eq_of_NoRepeats (x ∷ xs) h =
    ap (λ l. x ∷ l) (rw (from_keys-eq_of_NoRepeats xs h.1) (filter_ne-eq_of_not-contains x xs h.0))

module _ {ℓ} {A : Type ℓ} where
  length-filter-≤ : (p : A → Bool) (xs : List A) → length (filter p xs) ≤ length xs
  unfolding filter
  length-filter-≤ p [] = omega arith
  length-filter-≤ p (x ∷ xs) = ground (arith, length-filter-≤ p xs)

length-from_keys-≤ : (xs : List String) → length (from_keys xs) ≤ length xs
unfolding from_keys
length-from_keys-≤ [] = omega arith
length-from_keys-≤ (x ∷ xs) =
    let dropped = length-filter-≤ (λ y. not (y == x)) (from_keys xs) in
    let rest = length-from_keys-≤ xs in omega arith

-- A filter that drops nothing of a list without the text.
not-contains_of_length :
    (x : String) (xs : List String)
    → length (filter (λ y. not (y == x)) xs) ≡ length xs
    → contains x xs ≡ false
unfolding filter contains any
not-contains_of_length x [] h = refl
not-contains_of_length x (y ∷ ys) h =
    ground (arith, not-contains_of_length x ys, length-filter-≤ (λ z. not (z == x)) ys)

-- Where dropping repetitions drops nothing, there are none.
pub from_keys-length-NoRepeats :
    (xs : List String) → length (from_keys xs) ≡ length xs → NoRepeats xs
unfolding from_keys
from_keys-length-NoRepeats [] h = tt
from_keys-length-NoRepeats (x ∷ xs) h =
    let dropped = length-filter-≤ (λ y. not (y == x)) (from_keys xs) in
    let short = length-from_keys-≤ xs in
    let rest = from_keys-length-NoRepeats xs (omega arith) in
    let all = not-contains_of_length x (from_keys xs) (omega arith) in
    (ap (contains x) (sym (from_keys-eq_of_NoRepeats xs rest)) ∙ all, rest)
