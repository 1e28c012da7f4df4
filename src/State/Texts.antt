-- ===== src/State/Texts.antt =====
-- The normal form of the texts of a state, and what it keeps of a list of texts.
use codepilot_stable.Base.{
  ◌≡◌, String, Bool, true, List, [], ◌∷◌, any, contains, filter, from_keys, not, ok, traverse,
  arith, eq_iff, eq_refl, >>=-eq-ok, str_eq,
}
use mathlib.Core.List.{◌++◌}
use codepilot_stable.Base.Dedup.{from_keys_idem}
use codepilot_stable.Base.Fixed.{traverse-AllFixed, AllFixed-traverse, AllFixed-from_keys}
use codepilot_stable.Text.Strip.{strip_idem}
use codepilot_stable.State.{required_core_text, text_tuple}

pub required_core_text_idem :
    (v t : String) → required_core_text v ≡ ok t → required_core_text t ≡ ok t
unfolding required_core_text
required_core_text_idem v t h = ground (arith, strip_idem v)

pub text_tuple_idem : (vs ts : List String) → text_tuple vs ≡ ok ts → text_tuple ts ≡ ok ts
unfolding text_tuple
text_tuple_idem vs ts h =
    let (texts, e, h') = >>=-eq-ok (traverse required_core_text vs) _ h in
    let fixed =
      AllFixed-from_keys required_core_text texts
        (AllFixed-traverse required_core_text required_core_text_idem vs texts e) in
    let once = from_keys_idem texts in
    let again = traverse-AllFixed required_core_text (from_keys texts) fixed in ground arith

contains-filter_keep :
    (p : String → Bool) (x : String) (xs : List String)
    → p x ≡ true
    → contains x xs ≡ true
    → contains x (filter p xs) ≡ true
unfolding contains any filter
contains-filter_keep p x [] h k = cc
contains-filter_keep p x (y ∷ ys) h k = ground (arith, contains-filter_keep p x ys h, eq_iff y x)

pub contains-from_keys :
    (x : String) (xs : List String) → contains x xs ≡ true → contains x (from_keys xs) ≡ true
unfolding contains any from_keys
contains-from_keys x [] h = cc
contains-from_keys x (y ∷ ys) h = ground (
  arith,
  contains-from_keys x ys,
  contains-filter_keep (λ z. not (str_eq z y)) x (from_keys ys),
  eq_iff x y,
  eq_iff y x,
)

pub contains-append_last : (x : String) (xs : List String) → contains x (xs ++ x ∷ []) ≡ true
unfolding contains any
contains-append_last x [] = rw (eq_refl x)
contains-append_last x (y ∷ ys) = ground (arith, contains-append_last x ys)

-- A text in normal form is still there when the list is brought into normal form.
contains-traverse :
    (x : String) (xs ys : List String)
    → required_core_text x ≡ ok x
    → contains x xs ≡ true
    → traverse required_core_text xs ≡ ok ys
    → contains x ys ≡ true
unfolding contains any traverse
contains-traverse x [] ys f h e = cc
contains-traverse x (z ∷ zs) [] f h e = ground arith
contains-traverse x (z ∷ zs) (y ∷ ys) f h e = ground (
  arith,
  eq_iff z x,
  eq_iff y x,
  λ (k : contains x zs ≡ true) (e' : traverse required_core_text zs ≡ ok ys).
      contains-traverse x zs ys f k e',
)

pub contains-text_tuple :
    (x : String) (xs ys : List String)
    → required_core_text x ≡ ok x
    → contains x xs ≡ true
    → text_tuple xs ≡ ok ys
    → contains x ys ≡ true
unfolding text_tuple
contains-text_tuple x xs ys f h e =
    let (texts, e1, e2) = >>=-eq-ok (traverse required_core_text xs) _ e in
    let there = contains-from_keys x texts (contains-traverse x xs texts f h e1) in ground arith
