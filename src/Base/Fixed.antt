-- ===== src/Base/Fixed.antt =====
-- Lists whose items a normalising function accepts and leaves as they are.
use mathlib.Core.List.{List, [], ◌∷◌}
use mathlib.Core.Path.{◌≡◌, refl}
use mathlib.Core.Bool.{Bool}
use mathlib.Core.Logic.{inl, inr}
use Prim.Native.String.{String}
use native.Mathlib.Omega.{arith}
use codepilot_stable.Base.Tests.{Bool-cases}
use codepilot_stable.Base.Lists.{filter, from_keys}
use codepilot_stable.Base.Errors.{Result, ok, traverse, >>=-eq-ok}

module _ {ℓ} {A : Type ℓ} (f : A → Result A) where
  abbrev pub AllFixed : List A → Type ℓ
  AllFixed [] = Unit
  AllFixed (x ∷ xs) = (f x ≡ ok x) × AllFixed xs

  pub traverse-AllFixed : (xs : List A) → AllFixed xs → traverse f xs ≡ ok xs
  unfolding traverse
  traverse-AllFixed [] h = refl
  traverse-AllFixed (x ∷ xs) h = rw (h.0, traverse-AllFixed xs h.1)

  pub AllFixed-traverse :
      ((x y : A) → f x ≡ ok y → f y ≡ ok y) → (xs ys : List A) → traverse f xs ≡ ok ys → AllFixed ys
  unfolding traverse
  AllFixed-traverse idem [] [] h = tt
  AllFixed-traverse idem [] (y ∷ ys) h = cc
  AllFixed-traverse idem (x ∷ xs) [] h = ground arith
  AllFixed-traverse idem (x ∷ xs) (y ∷ ys) h =
      let (y', e, h') = >>=-eq-ok (f x) _ h in
      let (ys', e', h'') = >>=-eq-ok (traverse f xs) _ h' in
      (idem x y (cc), AllFixed-traverse idem xs ys (cc))

  pub AllFixed-filter : (p : A → Bool) (xs : List A) → AllFixed xs → AllFixed (filter p xs)
  unfolding filter
  AllFixed-filter p [] h = tt
  AllFixed-filter p (x ∷ xs) h = elim (Bool-cases (p x)) [
    | inl e ↦ rw e (h.0, AllFixed-filter p xs h.1)
    | inr e ↦ rw e (AllFixed-filter p xs h.1)
  ]

pub AllFixed-from_keys :
    (f : String → Result String) (xs : List String) → AllFixed f xs → AllFixed f (from_keys xs)
unfolding from_keys
AllFixed-from_keys f [] h = tt
AllFixed-from_keys f (x ∷ xs) h =
    (h.0, AllFixed-filter f _ (from_keys xs) (AllFixed-from_keys f xs h.1))
