-- ===== src/Text.antt =====
-- Python's operations on `str` that the Core uses.
pub mod Strip
pub mod Words
pub mod Decimal
pub mod Prefix
pub mod Glob
use Prim.Native.Char.{code}
use Prim.Native.String.{String, ◌++◌}
use codepilot_stable.Base.{
  ℕ, Bool, true, false, ◌&&◌, ◌||◌, List, [], ◌∷◌, ◌==◌, leb, if◌then◌else◌,
}

-- `str.isspace` on one character
unfoldable pub is_space : ℕ → Bool
is_space c =
    (leb 9 c && leb c 13)
    || (leb 28 c && leb c 32)
    || c == 0x85
    || c == 0xa0
    || c == 0x1680
    || (leb 0x2000 c && leb c 0x200a)
    || c == 0x2028
    || c == 0x2029
    || c == 0x202f
    || c == 0x205f
    || c == 0x3000

-- `not text`
unfoldable pub is_empty : String → Bool
is_empty String.[] = true
is_empty (String.◌∷◌ c s) = false

unfoldable pub lstrip : String → String
lstrip String.[] = ""
lstrip (String.◌∷◌ c s) = if is_space (code c) then lstrip s else String.◌∷◌ c s

unfoldable pub rstrip : String → String
rstrip String.[] = ""
rstrip (String.◌∷◌ c s) =
    let r = rstrip s in if is_space (code c) && is_empty r then "" else String.◌∷◌ c r

unfoldable pub strip : String → String
unfolding lstrip rstrip is_space is_empty
strip s = rstrip (lstrip s)

-- A word in front of a list of words; Python's `split` drops the empty ones.
unfoldable pub push_word : String → List String → List String
push_word w ws = if is_empty w then ws else w ∷ ws

-- the word at the front of a text, up to white space, and the words behind it
unfoldable pub span_words : String → String × List String
span_words String.[] = ("", [])
span_words (String.◌∷◌ c s) =
    let (w, ws) = span_words s in
    if is_space (code c) then ("", push_word w ws) else (String.◌∷◌ c w, ws)

-- `text.split()`
unfoldable pub split : String → List String
unfolding push_word span_words is_space is_empty
split s = let (w, ws) = span_words s in push_word w ws

-- `sep.join(words)`
unfoldable pub join : String → List String → String
join sep [] = ""
join sep (w ∷ []) = w
join sep (w ∷ v ∷ ws) = w ++ (sep ++ join sep (v ∷ ws))

-- `" ".join(str(value).strip().split())`
unfoldable pub collapse : String → String
unfolding strip split join
collapse s = join " " (split (strip s))
