-- ===== src/Driver/Transcript/Open.antt =====
-- The calls of a transcript by their ids, and which of them a set of results covers.
use mathlib.Core.Path.{subst}
use codepilot_stable.Base.{
  String, Bool, true, false, ◌||◌, List, [], ◌∷◌, ◌++◌, ◌≡◌, refl, sym, ◌∙◌, map, filter, contains,
  any, All, dict_set, str_eq, eq_iff, Bool-cases, inl, inr, ◌⊎◌,
}
use codepilot_stable.Tools.{ToolCall, AssistantBlock, call_block, text_block, other_block}
use codepilot_stable.Driver.Types.{Message, assistant_message, tool_message, user_message}
use codepilot_stable.Driver.Transcript.{put_calls, requested, is_open}

-- Each call stands under its own id.
unfoldable pub IsById : List (String × ToolCall) → Type 0
IsById = All (λ (entry : String × ToolCall). entry.1.id ≡ entry.0)

dict_set-IsById :
    (call : ToolCall) (calls : List (String × ToolCall))
    → IsById calls
    → IsById (dict_set call.id call calls)
unfolding IsById dict_set
dict_set-IsById call [] h = (refl, tt)
dict_set-IsById call ((k, c) ∷ calls) h = elim (Bool-cases (str_eq k call.id)) [
  | inl same ↦ rw (same, dict_set) (sym ((eq_iff k call.id).0 same), h.1)
  | inr other ↦ rw (other, dict_set) (h.0, dict_set-IsById call calls h.1)
]

put_calls-IsById :
    (blocks : List AssistantBlock) (calls : List (String × ToolCall))
    → IsById calls
    → IsById (put_calls blocks calls)
unfolding put_calls
put_calls-IsById [] calls h = h
put_calls-IsById (call_block call ∷ blocks) calls h =
    put_calls-IsById blocks _ (dict_set-IsById call calls h)
put_calls-IsById (text_block text ∷ blocks) calls h = put_calls-IsById blocks calls h
put_calls-IsById (other_block ∷ blocks) calls h = put_calls-IsById blocks calls h

pub requested-IsById :
    (messages : List Message) (calls : List (String × ToolCall))
    → IsById calls
    → IsById (requested messages calls)
unfolding requested
requested-IsById [] calls h = h
requested-IsById (assistant_message blocks ∷ messages) calls h =
    requested-IsById messages _ (put_calls-IsById blocks calls h)
requested-IsById (tool_message result ∷ messages) calls h = requested-IsById messages calls h
requested-IsById (user_message text ∷ messages) calls h = requested-IsById messages calls h

contains-++ :
    (x : String) (xs ys : List String) → contains x (xs ++ ys) ≡ (contains x xs || contains x ys)
unfolding contains any
contains-++ x [] ys = refl
contains-++ x (y ∷ xs) ys = elim (Bool-cases (str_eq y x)) [
  | inl same ↦ rw same refl
  | inr other ↦ rw other (contains-++ x xs ys)
]

-- the ids of the calls that are open
unfoldable pub open_ids : List String → List (String × ToolCall) → List String
open_ids settled entries =
    map (λ (entry : String × ToolCall). entry.1.id) (filter (is_open settled) entries)

unfoldable pub IsCovered : List String → List String → List (String × ToolCall) → Type 0
IsCovered settled ids = All (λ (entry : String × ToolCall).
    (contains entry.0 settled ≡ true) ⊎ (contains entry.0 ids ≡ true))

IsCovered-∷ :
    (settled ids : List String) (id : String) (entries : List (String × ToolCall))
    → IsCovered settled ids entries
    → IsCovered settled (id ∷ ids) entries
unfolding IsCovered contains any
IsCovered-∷ settled ids id [] h = tt
IsCovered-∷ settled ids id (entry ∷ entries) h = (
  elim h.0 [
    | inl old ↦ inl old
    | inr new ↦ inr (elim (Bool-cases (str_eq id entry.0)) [
      | inl same ↦ rw same refl
      | inr other ↦ rw other new
    ])
  ],
  IsCovered-∷ settled ids id entries h.1,
)

closed_entry :
    (settled : List String) (k : String) (c : ToolCall) (entries : List (String × ToolCall))
    → contains k settled ≡ true
    → open_ids settled ((k, c) ∷ entries) ≡ open_ids settled entries
unfolding open_ids filter is_open
closed_entry settled k c entries old = rw (old, filter, is_open) refl

open_entry :
    (settled : List String) (k : String) (c : ToolCall) (entries : List (String × ToolCall))
    → contains k settled ≡ false
    → open_ids settled ((k, c) ∷ entries) ≡ c.id ∷ open_ids settled entries
unfolding open_ids filter is_open
open_entry settled k c entries new = rw (new, filter, is_open) refl

contains_head : (x y : String) (xs : List String) → str_eq x y ≡ true → contains y (x ∷ xs) ≡ true
unfolding contains any
contains_head x y xs same = rw same refl

IsCovered-cons :
    (settled ids : List String) (k : String) (c : ToolCall) (entries : List (String × ToolCall))
    → (contains k settled ≡ true) ⊎ (contains k ids ≡ true)
    → IsCovered settled ids entries
    → IsCovered settled ids ((k, c) ∷ entries)
unfolding IsCovered
IsCovered-cons settled ids k c entries first rest = (first, rest)

pub open_ids-IsCovered :
    (settled : List String) (entries : List (String × ToolCall))
    → IsById entries
    → IsCovered settled (open_ids settled entries) entries
unfolding IsById IsCovered
open_ids-IsCovered settled [] h = tt
open_ids-IsCovered settled ((k, c) ∷ entries) h =
    let rest = open_ids-IsCovered settled entries h.1 in
    elim (Bool-cases (contains k settled)) [
      | inl old ↦
          subst (λ ids. IsCovered settled ids ((k, c) ∷ entries))
            (sym (closed_entry settled k c entries old))
            (IsCovered-cons settled _ k c entries (inl old) rest)
      | inr new ↦
          let same = (eq_iff c.id k).1 h.0 in
          subst (λ ids. IsCovered settled ids ((k, c) ∷ entries))
            (sym (open_entry settled k c entries new))
            (IsCovered-cons settled _ k c entries (inr (contains_head c.id k _ same))
              (IsCovered-∷ settled _ c.id entries rest))
    ]

or_true : (a b : Bool) → b ≡ true → (a || b) ≡ true
or_true true b e = refl
or_true false b e = e

pub none_open :
    (settled ids : List String) (entries : List (String × ToolCall))
    → IsCovered settled ids entries
    → filter (is_open (settled ++ ids)) entries ≡ []
unfolding IsCovered filter is_open
none_open settled ids [] h = refl
none_open settled ids ((k, c) ∷ entries) h =
    let both = contains-++ k settled ids in
    let there : contains k (settled ++ ids) ≡ true = elim h.0 [
      | inl old ↦ rw (both, old) refl
      | inr new ↦ both ∙ or_true _ _ new
    ] in
    rw (there, filter, is_open) (none_open settled ids entries h.1)
