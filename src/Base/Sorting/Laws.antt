-- ===== src/Base/Sorting/Laws.antt =====
-- Sorting a sorted list changes nothing, and a sort keeps which texts occur.
use Prim.Native.String.{String}
use mathlib.Core.Path.{◌≡◌, refl, ◌∙◌}
use mathlib.Core.Logic.{inl, inr}
use mathlib.Core.Bool.{true, false, ◌||◌}
use mathlib.Core.List.{List, [], ◌∷◌}
use native.Mathlib.Omega.{arith}
use text.Mathlib.Text.{◌==◌}
use text.Mathlib.TextEquality.{eq_iff}
use codepilot_stable.Base.Tests.{Bool-cases}
use codepilot_stable.Base.Lists.{any, contains}
use codepilot_stable.Base.Dedup.{NoRepeats}
use codepilot_stable.Base.Sorting.Defs.{text_le, insert_by, sort_by}

text_le_total : (s t : String) → text_le s t ≡ false → text_le t s ≡ true
unfolding text_le
text_le_total String.[] t h = cc
text_le_total (String.◌∷◌ c s) String.[] h = refl
text_le_total (String.◌∷◌ c s) (String.◌∷◌ d t) h = ground (arith, text_le_total s t)

module _ {ℓ} {A : Type ℓ} (key : A → String) where
  -- Each key is at most the next.
  abbrev pub IsSortedBy : List A → Type 0
  IsSortedBy [] = Unit
  IsSortedBy (x ∷ []) = Unit
  IsSortedBy (x ∷ y ∷ ys) = (text_le (key x) (key y) ≡ true) × IsSortedBy (y ∷ ys)

  insert_by-IsSortedBy : (x : A) (xs : List A) → IsSortedBy xs → IsSortedBy (insert_by key x xs)
  unfolding insert_by
  insert_by-IsSortedBy x [] h = tt
  insert_by-IsSortedBy x (y ∷ []) h = elim (Bool-cases (text_le (key x) (key y))) [
    | inl e ↦ rw e (e, tt)
    | inr e ↦ rw e (text_le_total (key x) (key y) e, tt)
  ]
  insert_by-IsSortedBy x (y ∷ z ∷ zs) h =
      let ih = insert_by-IsSortedBy x (z ∷ zs) h.1 in
      elim (Bool-cases (text_le (key x) (key y))) [
        | inl e ↦ rw e (e, h)
        | inr e ↦ elim (Bool-cases (text_le (key x) (key z))) [
          | inl e' ↦ rw (e, e') (text_le_total (key x) (key y) e, (e', h.1))
          | inr e' ↦ rw (e, e') (h.0, rw e' at ih)
        ]
      ]

  pub sort_by-IsSortedBy : (xs : List A) → IsSortedBy (sort_by key xs)
  unfolding sort_by
  sort_by-IsSortedBy [] = tt
  sort_by-IsSortedBy (x ∷ xs) = insert_by-IsSortedBy x (sort_by key xs) (sort_by-IsSortedBy xs)

  pub sort_by-eq_of_IsSortedBy : (xs : List A) → IsSortedBy xs → sort_by key xs ≡ xs
  unfolding sort_by insert_by
  sort_by-eq_of_IsSortedBy [] h = refl
  sort_by-eq_of_IsSortedBy (x ∷ []) h = refl
  sort_by-eq_of_IsSortedBy (x ∷ y ∷ ys) h = rw (sort_by-eq_of_IsSortedBy (y ∷ ys) h.1, h.0)

  pub sort_by_idem : (xs : List A) → sort_by key (sort_by key xs) ≡ sort_by key xs
  sort_by_idem xs = sort_by-eq_of_IsSortedBy (sort_by key xs) (sort_by-IsSortedBy xs)

contains-insert_by :
    (y x : String) (xs : List String)
    → contains y (insert_by (λ s. s) x xs) ≡ (x == y || contains y xs)
unfolding contains any insert_by
contains-insert_by y x [] = refl
contains-insert_by y x (z ∷ zs) = ground (arith, contains-insert_by y x zs)

insert_by-NoRepeats :
    (x : String) (xs : List String)
    → contains x xs ≡ false
    → NoRepeats xs
    → NoRepeats (insert_by (λ s. s) x xs)
unfolding insert_by contains any
insert_by-NoRepeats x [] h k = (refl, tt)
insert_by-NoRepeats x (y ∷ ys) h k = elim (Bool-cases (text_le x y)) [
  | inl e ↦ rw e (h, k)
  | inr e ↦ rw e (
    ground (arith, contains-insert_by y x ys, eq_iff x y, eq_iff y x, k.0),
    insert_by-NoRepeats x ys (ground arith) k.1,
  )
]

contains-sort_by :
    (y : String) (xs : List String) → contains y (sort_by (λ s. s) xs) ≡ contains y xs
unfolding sort_by contains any
contains-sort_by y [] = refl
contains-sort_by y (x ∷ xs) =
    rw (contains-insert_by y x (sort_by (λ s. s) xs), contains-sort_by y xs)

pub sort_by-NoRepeats : (xs : List String) → NoRepeats xs → NoRepeats (sort_by (λ s. s) xs)
unfolding sort_by
sort_by-NoRepeats [] h = tt
sort_by-NoRepeats (x ∷ xs) h =
    insert_by-NoRepeats x (sort_by (λ s. s) xs) (contains-sort_by x xs ∙ h.0)
      (sort_by-NoRepeats xs h.1)
