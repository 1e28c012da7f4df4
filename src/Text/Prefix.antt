-- ===== src/Text/Prefix.antt =====
-- `str.startswith`, `str.removeprefix` and the JSON form of a text.
use Prim.Native.Char.{Char, code}
use Prim.Native.String.{String, ◌++◌}
use codepilot_stable.Base.{
  ℕ, ◌/◌, ◌%◌, Bool, true, false, Option, none, some, ltb, leb, ◌+◌, ◌&&◌, ◌==◌, if◌then◌else◌,
}
use codepilot_stable.Text.{is_empty}
use codepilot_stable.Text.Decimal.{digit}

-- the text behind the prefix, where it is there
unfoldable pub drop_prefix : String → String → Option String
drop_prefix String.[] s = some s
drop_prefix (String.◌∷◌ c p) String.[] = none
drop_prefix (String.◌∷◌ c p) (String.◌∷◌ d s) =
    let rest = drop_prefix p s in if code c == code d then rest else none

-- `s.startswith(prefix)`
unfoldable pub starts_with : String → String → Bool
unfolding drop_prefix
starts_with prefix s = elim (drop_prefix prefix s) [ none ↦ false | some rest ↦ true ]

-- `s.removeprefix(prefix)`
unfoldable pub remove_prefix : String → String → String
unfolding drop_prefix
remove_prefix prefix s = elim (drop_prefix prefix s) [ none ↦ s | some rest ↦ rest ]

-- One character inside a JSON text, as `json.dumps(..., ensure_ascii=False)` writes it.
unfoldable pub json_char : Char → String
unfolding digit
json_char c =
    let n = code c in
    if n == 34
    then "\\\""
    else if n == 92
    then "\\\\"
    else if n == 10
    then "\\n"
    else if n == 13
    then "\\r"
    else if n == 9
    then "\\t"
    else if n == 8
    then "\\b"
    else if n == 12
    then "\\f"
    else if ltb n 32
    then "\\u00" ++ (digit (n / 16) ++ digit (n % 16))
    else String.◌∷◌ c ""

unfoldable pub json_chars : String → String
unfolding json_char
json_chars String.[] = ""
json_chars (String.◌∷◌ c s) = json_char c ++ json_chars s

-- `json.dumps(text, ensure_ascii=False)`
unfoldable pub json_text : String → String
unfolding json_chars
json_text s = "\"" ++ (json_chars s ++ "\"")

-- `str.lower` of one character, as far as the result is a letter of ASCII: the capitals and the
-- Kelvin sign. No other character has an ASCII letter as its lower case.
unfoldable pub lower_code : ℕ → ℕ
lower_code n = if leb 65 n && leb n 90 then n + 32 else if n == 0x212a then 107 else n

-- the text behind a prefix of `s.lower()`, for a prefix in lower case
unfoldable pub drop_lower_prefix : String → String → Option String
unfolding lower_code
drop_lower_prefix String.[] s = some s
drop_lower_prefix (String.◌∷◌ c p) String.[] = none
drop_lower_prefix (String.◌∷◌ c p) (String.◌∷◌ d s) =
    let rest = drop_lower_prefix p s in if code c == lower_code (code d) then rest else none

-- `s.lower() == word`, for a word in lower case
unfoldable pub lower_is : String → String → Bool
unfolding drop_lower_prefix is_empty
lower_is word s = elim (drop_lower_prefix word s) [ none ↦ false | some rest ↦ is_empty rest ]
