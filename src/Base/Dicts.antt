-- ===== src/Base/Dicts.antt =====
-- Python's dicts with texts as keys: the pairs in the order of the first insertion of their keys.
use Prim.Native.String.{String}
use mathlib.Core.Path.{◌≡◌, refl, sym, ◌∙◌}
use mathlib.Core.Logic.{inl, inr}
use mathlib.Core.Option.{Option, none, some}
use mathlib.Core.List.{List, [], ◌∷◌}
use text.Mathlib.Text.{◌==◌}
use text.Mathlib.TextEquality.{eq_iff}
use codepilot_stable.Base.Tests.{if◌then◌else◌, Bool-cases}

module _ {ℓ} {V : Type ℓ} where
  -- `entries.get(key)`
  unfoldable pub dict_get : String → List (String × V) → Option V
  dict_get key [] = none
  dict_get key ((k, v) ∷ entries) =
      let rest = dict_get key entries in if k == key then some v else rest

  -- `entries[key] = value`: a key that is there keeps its place.
  unfoldable pub dict_set : String → V → List (String × V) → List (String × V)
  dict_set key value [] = (key, value) ∷ []
  dict_set key value ((k, v) ∷ entries) =
      let rest = dict_set key value entries in
      if k == key then (k, value) ∷ entries else (k, v) ∷ rest

  pub dict_get-dict_set :
      (key written : String) (value : V) (entries : List (String × V))
      → dict_get key (dict_set written value entries)
        ≡ (if written == key then some value else dict_get key entries)
  unfolding dict_get dict_set
  dict_get-dict_set key written value [] = refl
  dict_get-dict_set key written value ((k, v) ∷ entries) = elim (Bool-cases (k == written)) [
    | inl same ↦
        let e : k ≡ written = (eq_iff k written).0 same in
        elim (Bool-cases (written == key)) [
          | inl found ↦ rw (same, found, e, found)
          | inr missed ↦ rw (same, missed, e, missed)
        ]
    | inr other ↦ elim (Bool-cases (k == key)) [
      | inl found ↦ elim (Bool-cases (written == key)) [
        | inl same ↦
            let a = (eq_iff k key).0 found in
            let b = (eq_iff written key).0 same in
            let c = (eq_iff k written).1 (a ∙ sym b) in absurd (cc)
        | inr missed ↦ rw (other, found, missed)
      ]
      | inr missed ↦ rw (other, missed, dict_get-dict_set key written value entries)
    ]
  ]
