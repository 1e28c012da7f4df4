-- ===== src/Driver/Batch/Tables.antt =====
-- Tables of results by call id, as far as look-ups in them tell.
use mathlib.Core.Path.{subst}
use codepilot_stable.Base.{
  String, true, false, none, some, List, [], ◌∷◌, ◌≡◌, refl, sym, ap, ◌∙◌, map, filter, All, Holds,
  front, behind, dict_get, dict_set, dict_get-dict_set, str_eq, eq_iff, eq_refl, Bool, Bool-cases,
  inl, inr, ◌⊎◌, Result, ok, traverse,
}

pub Holds-cases : {A : Type 0} {x y : A} {ys : List A} → Holds x (y ∷ ys) → (x ≡ y) ⊎ Holds x ys
Holds-cases front = inl refl
Holds-cases (behind holds) = inr holds

module _ {V : Type 0} where
  pub dict_get_same :
      (key : String) (value : V) (entries : List (String × V))
      → dict_get key (dict_set key value entries) ≡ some value
  dict_get_same key value entries = rw (dict_get-dict_set key key value entries, eq_refl key) refl

  pub dict_get_other :
      (key written : String) (value : V) (entries : List (String × V))
      → str_eq written key ≡ false
      → dict_get key (dict_set written value entries) ≡ dict_get key entries
  dict_get_other key written value entries other =
      rw (dict_get-dict_set key written value entries, other) refl

  -- A key that is new leaves what was there.
  pub dict_get_kept :
      (key written : String) (value found : V) (entries : List (String × V))
      → dict_get written entries ≡ none
      → dict_get key entries ≡ some found
      → dict_get key (dict_set written value entries) ≡ some found
  dict_get_kept key written value found entries new old = elim (Bool-cases (str_eq written key)) [
    | inl same ↦ let e = (eq_iff written key).0 same in absurd (cc)
    | inr other ↦ dict_get_other key written value entries other ∙ old
  ]

  -- each pair that a look-up finds
  abbrev pub Every : (String → V → Type 0) → List (String × V) → Type 0
  Every P entries = (key : String) (value : V) → dict_get key entries ≡ some value → P key value

  pub dict_set-Every :
      (P : String → V → Type 0) (written : String) (value : V) (entries : List (String × V))
      → P written value
      → Every P entries
      → Every P (dict_set written value entries)
  dict_set-Every P written value entries new old = λ key found h.
      elim (Bool-cases (str_eq written key)) [
        | inl same ↦
            let e = (eq_iff written key).0 same in
            let set = dict_get_same written value entries in
            let read : value ≡ found = cc in subst (λ k. P k found) e (subst (P written) read new)
        | inr other ↦ old key found (sym (dict_get_other key written value entries other) ∙ h)
      ]

module _ {A B : Type 0} where
  pub Holds-map : (f : A → B) {x : A} {xs : List A} → Holds x xs → Holds (f x) (map f xs)
  Holds-map f front = front
  Holds-map f (behind h) = behind (Holds-map f h)

  pub map-Holds :
      (f : A → B) {y : B} (xs : List A) → Holds y (map f xs) → (x : A) × Holds x xs × (y ≡ f x)
  map-Holds f [] h = elim h [ ]
  map-Holds f (x ∷ xs) h = elim (Holds-cases h) [
    | inl same ↦ (x, front, same)
    | inr rest ↦ let (x', there, e) = map-Holds f xs rest in (x', behind there, e)
  ]

module _ {A : Type 0} (P : A → Type 0) where
  pub Holds-All : (xs : List A) → ((x : A) → Holds x xs → P x) → All P xs
  Holds-All [] h = tt
  Holds-All (x ∷ xs) h = (h x front, Holds-All xs (λ y there. h y (behind there)))

  pub All-Holds : {x : A} {xs : List A} → Holds x xs → All P xs → P x
  All-Holds front h = h.0
  All-Holds (behind there) h = All-Holds there h.1

module _ {A : Type 0} where
  pub Holds-filter :
      (p : A → Bool) {x : A} {xs : List A} → p x ≡ true → Holds x xs → Holds x (filter p xs)
  unfolding filter
  Holds-filter p e front = rw e front
  Holds-filter p e (behind {y} h) = elim (Bool-cases (p y)) [
    | inl keep ↦ rw keep (behind (Holds-filter p e h))
    | inr leave ↦ rw leave (Holds-filter p e h)
  ]

  -- What a filter leaves was there, and passes the test.
  pub filter-Holds :
      (p : A → Bool) {x : A} (xs : List A) → Holds x (filter p xs) → Holds x xs × (p x ≡ true)
  unfolding filter
  filter-Holds p [] h = elim h [ ]
  filter-Holds p (y ∷ xs) h = elim (Bool-cases (p y)) [
    | inl keep ↦ elim (Holds-cases (rw keep at h)) [
      | inl same ↦ (subst (λ z. Holds z (y ∷ xs)) (sym same) front, ap p same ∙ keep)
      | inr rest ↦ let old = filter-Holds p xs rest in (behind old.0, old.1)
    ]
    | inr leave ↦ let old = filter-Holds p xs (rw leave at h) in (behind old.0, old.1)
  ]

module _ {A B C : Type 0} (f : A → Result B) (of_call : A → C) (of_result : B → C) where
  -- where each element has a result of its own
  pub traverse_returns :
      (xs : List A)
      → ((x : A) → Holds x xs → (y : B) × (f x ≡ ok y) × (of_result y ≡ of_call x))
      → (ys : List B) × (traverse f xs ≡ ok ys)
        × (map of_result ys ≡ map of_call xs)
        × ((x : A) (y : B) → Holds x xs → f x ≡ ok y → Holds y ys)
        × ((y : B) → Holds y ys → (x : A) × Holds x xs × (f x ≡ ok y))
  unfolding traverse
  traverse_returns [] h = ([], refl, refl, (λ x y there. elim there [ ]), λ y there. elim there [ ])
  traverse_returns (x ∷ xs) h =
      let (y, e, same) = h x front in
      let (ys, rest, ids, there, back) = traverse_returns xs (λ x' in_xs. h x' (behind in_xs)) in
      (
        y ∷ ys,
        rw (e, rest) refl,
        rw (same, ids) refl,
        (λ x' y' in_xs e'. elim (Holds-cases in_xs) [
          | inl is_x ↦ let is_y : y ≡ y' = cc in subst (λ z. Holds z (y ∷ ys)) is_y front
          | inr rest ↦ behind (there x' y' rest e')
        ]),
        λ y' in_ys. elim (Holds-cases in_ys) [
          | inl is_y ↦ (x, front, e ∙ sym (ap ok is_y))
          | inr rest ↦ let (x', in_xs, e') = back y' rest in (x', behind in_xs, e')
        ],
      )
