-- ===== src/Text/Decimal/Enough.antt =====
-- The fuel of `show` is enough: more of it gives the same digits.
use codepilot_stable.Base.{
  ◌≡◌, refl, ℕ, zero, suc, ◌/◌, ◌<◌, false, ltb, arith, Bool-cases, inl, inr,
}
use codepilot_stable.Text.Decimal.{show_fuel}

tenth_lt : (n k : ℕ) → ltb n 10 ≡ false → n < suc k → (n / 10) < k
tenth_lt n k h e = ground arith

-- Two amounts of fuel, both above the number, give the same digits.
pub show_fuel_enough : (k l n : ℕ) → n < k → n < l → show_fuel k n ≡ show_fuel l n
unfolding show_fuel
show_fuel_enough zero l n h g = ground arith
show_fuel_enough (suc k) zero n h g = ground arith
show_fuel_enough (suc k) (suc l) n h g = elim (Bool-cases (ltb n 10)) [
  | inl small ↦ rw small refl
  | inr big ↦ rw (big, show_fuel_enough k l (n / 10) (tenth_lt n k big h) (tenth_lt n l big g)) refl
]
