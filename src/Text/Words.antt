-- ===== src/Text/Words.antt =====
-- Splitting a text into words and joining them: the normal form of a plan's texts.
use Prim.Native.Char.{Char, code}
use Prim.Native.String.{String, ◌++◌}
use codepilot_stable.Base.{
  ◌≡◌, refl, ap, ◌∙◌, Bool, true, false, ◌&&◌, List, [], ◌∷◌, Bool-cases, inl, inr, if◌then◌else◌,
}
use text.Mathlib.TextLemmas.{nil-append, cons-append, append-nil}
use codepilot_stable.Text.{
  is_space, is_empty, lstrip, rstrip, strip, push_word, span_words, split, join, collapse,
}

-- The text has no white space.
abbrev pub IsSolid : String → Type 0
IsSolid String.[] = Unit
IsSolid (String.◌∷◌ c s) = (is_space (code c) ≡ false) × IsSolid s

-- Every text of the list is a word: it is not empty and has no white space.
abbrev pub AreWords : List String → Type 0
AreWords [] = Unit
AreWords (w ∷ ws) = (is_empty w ≡ false) × IsSolid w × AreWords ws

push_word-AreWords :
    (w : String) (ws : List String) → IsSolid w → AreWords ws → AreWords (push_word w ws)
unfolding push_word is_empty
push_word-AreWords String.[] ws h k = k
push_word-AreWords (String.◌∷◌ c s) ws h k = (refl, h, k)

span_words-AreWords : (s : String) → IsSolid (span_words s).0 × AreWords (span_words s).1
unfolding span_words
span_words-AreWords String.[] = (tt, tt)
span_words-AreWords (String.◌∷◌ c s) = elim (Bool-cases (is_space (code c))) [
  | inl e ↦ let (h, k) = span_words-AreWords s in rw e (tt, push_word-AreWords _ _ h k)
  | inr e ↦ let (h, k) = span_words-AreWords s in rw e ((e, h), k)
]

pub split-AreWords : (s : String) → AreWords (split s)
unfolding split
split-AreWords s = let (h, k) = span_words-AreWords s in push_word-AreWords _ _ h k

-- A solid text in front of a text with no word in front goes into the front word.
span_words-append :
    (w s : String) → IsSolid w → span_words (w ++ s) ≡ (w ++ (span_words s).0, (span_words s).1)
unfolding span_words
span_words-append String.[] s h = rw (nil-append s, nil-append (span_words s).0)
span_words-append (String.◌∷◌ c w) s h =
    rw (cons-append c w s, h.0, span_words-append w s h.1, cons-append c w (span_words s).0)

split-lstrip : (s : String) → split (lstrip s) ≡ split s
unfolding split lstrip push_word is_empty span_words
split-lstrip String.[] = refl
split-lstrip (String.◌∷◌ c s) = elim (Bool-cases (is_space (code c))) [
  | inl e ↦ rw e (split-lstrip s)
  | inr e ↦ let stop : lstrip (String.◌∷◌ c s) ≡ String.◌∷◌ c s = rw e in ap split stop
]

pub eq_of_is_empty : (s : String) → is_empty s ≡ true → s ≡ ""
unfolding is_empty
eq_of_is_empty String.[] h = refl
eq_of_is_empty (String.◌∷◌ c s) h = cc

span_words-rstrip_step :
    (c : Char) (s r : String) (b : Bool)
    → is_space (code c) ≡ b
    → span_words r ≡ span_words s
    → span_words (if b && is_empty r then "" else String.◌∷◌ c r) ≡ (
        if b
        then ("", push_word (span_words s).0 (span_words s).1)
        else (String.◌∷◌ c (span_words s).0, (span_words s).1))
unfolding span_words push_word is_empty
span_words-rstrip_step c s r false e h = rw (e, h)
span_words-rstrip_step c s String.[] true e h = rw (← h)
span_words-rstrip_step c s (String.◌∷◌ d r) true e h = rw e (λ i. ("", push_word (h i).0 (h i).1))

span_words-rstrip : (s : String) → span_words (rstrip s) ≡ span_words s
unfolding span_words rstrip
span_words-rstrip String.[] = refl
span_words-rstrip (String.◌∷◌ c s) =
    span_words-rstrip_step c s (rstrip s) (is_space (code c)) refl (span_words-rstrip s)

split-rstrip : (s : String) → split (rstrip s) ≡ split s
unfolding split
split-rstrip s = rw (span_words-rstrip s)

pub split-strip : (s : String) → split (strip s) ≡ split s
unfolding strip
split-strip s = split-rstrip (lstrip s) ∙ split-lstrip s

split-word : (w : String) → is_empty w ≡ false → IsSolid w → split w ≡ w ∷ []
unfolding split push_word span_words
split-word w h k =
    let e = span_words-append w "" k in
    let e' : span_words w ≡ (w, []) = cc (e, append-nil w) in rw (e', h)

span_words-space : (t : String) → span_words (" " ++ t) ≡ ("", split t)
unfolding span_words split
span_words-space t = rw (cons-append " " "" t, nil-append t)

split-word_space :
    (w t : String) → is_empty w ≡ false → IsSolid w → split (w ++ (" " ++ t)) ≡ w ∷ split t
split-word_space w t h k =
    let e = span_words-append w (" " ++ t) k in
    let e' : span_words (w ++ (" " ++ t)) ≡ (w, split t) =
      cc (e, append-nil w, span_words-space t) in
    unfold split push_word in rw (e', h)

-- Joining words by one space and splitting again gives the words.
pub split-join : (ws : List String) → AreWords ws → split (join " " ws) ≡ ws
unfolding join split
split-join [] h = unfold span_words push_word is_empty in refl
split-join (w ∷ []) h = split-word w h.0 h.1
split-join (w ∷ v ∷ ws) h =
    split-word_space w (join " " (v ∷ ws)) h.0 h.1 ∙ ap (λ l. w ∷ l) (split-join (v ∷ ws) h.2)

-- Collapsing a text twice is collapsing it once.
pub collapse_idem : (s : String) → collapse (collapse s) ≡ collapse s
collapse_idem s =
    unfold collapse in
    ap (join " ")
      (split-strip (join " " (split (strip s))) ∙ split-join _ (split-AreWords (strip s)))
