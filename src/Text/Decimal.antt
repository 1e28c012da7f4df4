-- ===== src/Text/Decimal.antt =====
-- `str(n)` of a natural number, as `f"{n}"` writes it.
pub mod Enough
use Prim.Native.String.{String, ◌++◌}
use codepilot_stable.Base.{ℕ, zero, suc, ◌/◌, ◌%◌, ltb, ◌==◌, if◌then◌else◌}

-- one digit, also of a hexadecimal number
unfoldable pub digit : ℕ → String
digit n =
    if n == 0
    then "0"
    else if n == 1
    then "1"
    else if n == 2
    then "2"
    else if n == 3
    then "3"
    else if n == 4
    then "4"
    else if n == 5
    then "5"
    else if n == 6
    then "6"
    else if n == 7
    then "7"
    else if n == 8
    then "8"
    else if n == 9
    then "9"
    else if n == 10
    then "a"
    else if n == 11
    then "b"
    else if n == 12
    then "c"
    else if n == 13
    then "d"
    else if n == 14
    then "e"
    else "f"

-- A number has no more digits than its successor counts.
unfoldable pub show_fuel : ℕ → ℕ → String
show_fuel zero n = ""
show_fuel (suc fuel) n =
    let more = show_fuel fuel (n / 10) ++ digit (n % 10) in if ltb n 10 then digit n else more

unfoldable pub show : ℕ → String
unfolding show_fuel digit
show n = show_fuel (suc n) n
