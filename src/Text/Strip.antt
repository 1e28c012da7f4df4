-- ===== src/Text/Strip.antt =====
-- Stripping a text twice is stripping it once.
use Prim.Native.Char.{code}
use Prim.Native.String.{String}
use codepilot_stable.Base.{◌≡◌, refl, false, arith, Bool-cases, inl, inr}
use codepilot_stable.Text.{is_space, is_empty, lstrip, rstrip, strip}

rstrip_idem : (s : String) → rstrip (rstrip s) ≡ rstrip s
unfolding rstrip is_empty
rstrip_idem String.[] = refl
rstrip_idem (String.◌∷◌ c s) = ground (arith, rstrip_idem s)

-- A text with no white space in front.
abbrev IsTrimmed : String → Type 0
IsTrimmed String.[] = Unit
IsTrimmed (String.◌∷◌ c s) = is_space (code c) ≡ false

lstrip-IsTrimmed : (s : String) → IsTrimmed (lstrip s)
unfolding lstrip
lstrip-IsTrimmed String.[] = tt
lstrip-IsTrimmed (String.◌∷◌ c s) = elim (Bool-cases (is_space (code c))) [
  | inl e ↦ rw e (lstrip-IsTrimmed s)
  | inr e ↦ rw e e
]

rstrip-IsTrimmed : (s : String) → IsTrimmed s → IsTrimmed (rstrip s)
unfolding rstrip
rstrip-IsTrimmed String.[] h = tt
rstrip-IsTrimmed (String.◌∷◌ c s) h = rw h h

lstrip-eq_of_IsTrimmed : (s : String) → IsTrimmed s → lstrip s ≡ s
unfolding lstrip
lstrip-eq_of_IsTrimmed String.[] h = refl
lstrip-eq_of_IsTrimmed (String.◌∷◌ c s) h = rw h

pub strip_idem : (s : String) → strip (strip s) ≡ strip s
unfolding strip
strip_idem s =
    rw (lstrip-eq_of_IsTrimmed (rstrip (lstrip s)) (rstrip-IsTrimmed _ (lstrip-IsTrimmed s)))
      (rstrip_idem (lstrip s))
