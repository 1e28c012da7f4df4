-- ===== src/Text/Glob.antt =====
-- `fnmatch.fnmatchcase` of Python's library: `*`, `?` and classes of characters in brackets. The
-- permission engine of tools/security.py matches actions, resources and permissions with it.
use Prim.Native.Char.{code}
use Prim.Native.String.{String}
use codepilot_stable.Base.{
  ℕ, zero, suc, Bool, true, false, ◌&&◌, ◌||◌, not, Option, none, some, List, [], ◌∷◌, any, length,
  ◌==◌, leb, if◌then◌else◌,
}

-- A class of characters is a list of ranges, both ends included.
pub data Token : Type 0 where
  star any_char : Token
  literal : ℕ → Token
  class : Bool → List (ℕ × ℕ) → Token

unfoldable pub codes : String → List ℕ
codes String.[] = []
codes (String.◌∷◌ c s) = code c ∷ codes s

-- what stands in front of the first `]`
unfoldable pub until_close : List ℕ → Option (List ℕ)
until_close [] = none
until_close (c ∷ cs) =
    let rest = until_close cs in
    if c == 93 then some [] else elim rest [ none ↦ none | some body ↦ some (c ∷ body) ]

-- A `]` at the front belongs to the class.
unfoldable pub members : List ℕ → Option (List ℕ)
unfolding until_close
members [] = none
members (c ∷ cs) =
    if c == 93
    then elim (until_close cs) [ none ↦ none | some body ↦ some (c ∷ body) ]
    else until_close (c ∷ cs)

-- the text between the brackets, behind the one that opens
unfoldable pub class_body : List ℕ → Option (List ℕ)
unfolding members
class_body [] = none
class_body (c ∷ cs) =
    if c == 33
    then elim (members cs) [ none ↦ none | some body ↦ some (c ∷ body) ]
    else members (c ∷ cs)

-- `a-z` is a range; a `-` at an end stands for itself.
unfoldable pub ranges : List ℕ → List (ℕ × ℕ)
ranges [] = []
ranges (c ∷ []) = (c, c) ∷ []
ranges (c ∷ m ∷ []) = (c, c) ∷ (m, m) ∷ []
ranges (c ∷ m ∷ d ∷ cs) =
    let behind = ranges cs in
    let rest = ranges (m ∷ d ∷ cs) in if m == 45 then (c, d) ∷ behind else (c, c) ∷ rest

unfoldable pub class_token : List ℕ → Token
unfolding ranges
class_token [] = class false []
class_token (c ∷ cs) = if c == 33 then class true (ranges cs) else class false (ranges (c ∷ cs))

-- The count is of the characters that a class in front has used up.
unfoldable pub tokens : ℕ → List ℕ → List Token
unfolding class_body class_token
tokens skipped [] = []
tokens (suc skipped) (c ∷ cs) = tokens skipped cs
tokens zero (c ∷ cs) =
    if c == 42
    then star ∷ tokens zero cs
    else if c == 63
    then any_char ∷ tokens zero cs
    else if c == 91
    then elim (class_body cs) [
      | none ↦ literal c ∷ tokens zero cs
      | some body ↦ class_token body ∷ tokens (suc (length body)) cs
    ]
    else literal c ∷ tokens zero cs

unfoldable pub in_ranges : ℕ → List (ℕ × ℕ) → Bool
unfolding any
in_ranges c rs = any (λ r. leb r.0 c && leb c r.1) rs

unfoldable pub accepts : Token → ℕ → Bool
unfolding in_ranges
accepts star c = true
accepts any_char c = true
accepts (literal d) c = c == d
accepts (class negated rs) c = if negated then not (in_ranges c rs) else in_ranges c rs

unfoldable pub match : List Token → List ℕ → Bool
unfolding accepts
match [] [] = true
match [] (c ∷ cs) = false
match (star ∷ ts) [] = match ts []
match (star ∷ ts) (c ∷ cs) = match ts (c ∷ cs) || match (star ∷ ts) cs
match (any_char ∷ ts) [] = false
match (any_char ∷ ts) (c ∷ cs) = match ts cs
match (literal d ∷ ts) [] = false
match (literal d ∷ ts) (c ∷ cs) = c == d && match ts cs
match (class negated rs ∷ ts) [] = false
match (class negated rs ∷ ts) (c ∷ cs) = accepts (class negated rs) c && match ts cs

unfoldable pub fnmatchcase : String → String → Bool
unfolding codes tokens match
fnmatchcase name pattern = match (tokens zero (codes pattern)) (codes name)
