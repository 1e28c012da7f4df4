-- ===== src/Driver/Batch/Found.antt =====
-- core/driver.py, `_complete_results`: the table that the results of a batch are put into.
use mathlib.Core.Path.{subst}
use codepilot_stable.Base.{
  String, true, false, none, some, List, [], ◌∷◌, ◌≡◌, refl, sym, ap, ◌∙◌, contains, All, Holds,
  front, behind, dict_get, dict_set, dict_get-dict_set, str_eq, Bool-cases, inl, inr, ◌⊎◌, ok,
}
use codepilot_stable.Tools.{ToolResult}
use codepilot_stable.Driver.Batch.{by_call_id, put_results}
use codepilot_stable.Driver.Batch.Tables.{
  Every, dict_set-Every, dict_get_same, dict_get_kept, dict_get_other, Holds-cases, All-Holds,
}

-- No call has two results.
abbrev pub AreDistinct : List ToolResult → Type 0
AreDistinct [] = Unit
AreDistinct (result ∷ results) =
    All (λ (other : ToolResult). str_eq result.tool_call_id other.tool_call_id ≡ false) results
    × AreDistinct results

abbrev pub IsPut : List (String × ToolResult) → ToolResult → Type 0
IsPut found result = dict_get result.tool_call_id found ≡ some result

-- What is known of results goes over to the table of them, which each of them comes into.
pub by_call_id_returns :
    (P : String → ToolResult → Type 0) (expected : List String) (results : List ToolResult)
    (found : List (String × ToolResult))
    → ((r : ToolResult) → Holds r results → contains r.tool_call_id expected ≡ true)
    → ((r : ToolResult) → Holds r results → dict_get r.tool_call_id found ≡ none)
    → ((r : ToolResult) → Holds r results → P r.tool_call_id r)
    → AreDistinct results
    → Every P found
    → (table : List (String × ToolResult)) × (by_call_id expected results found ≡ ok table)
      × ((r : ToolResult) → Holds r results → IsPut table r)
      × ((r : ToolResult) → IsPut found r → IsPut table r)
      × Every P table
unfolding by_call_id
by_call_id_returns P expected [] found known new holds distinct every =
    (found, refl, (λ r h. elim h [ ]), (λ r h. h), every)
by_call_id_returns P expected (result ∷ results) found known new holds distinct every =
    let is_known = known result front in
    let is_new = new result front in
    let (table, e, put, kept, every') =
      by_call_id_returns P expected results (dict_set result.tool_call_id result found)
        (λ r h. known r (behind h))
        (λ r h.
          dict_get_other r.tool_call_id result.tool_call_id result found (
            All-Holds
              (λ (other : ToolResult). str_eq result.tool_call_id other.tool_call_id ≡ false) h
              distinct.0)
          ∙ new r (behind h))
        (λ r h. holds r (behind h)) distinct.1
        (dict_set-Every P result.tool_call_id result found (holds result front) every) in
    (
      table,
      rw (is_known, is_new) e,
      (λ r h. elim (Holds-cases h) [
        | inl same ↦
            subst (IsPut table) (sym same)
              (kept result (dict_get_same result.tool_call_id result found))
        | inr rest ↦ put r rest
      ]),
      (λ r h. kept r (dict_get_kept r.tool_call_id result.tool_call_id result r found is_new h)),
      every',
    )

-- Results that are put in take the place of none of another call.
pub put_results-IsPut :
    (P : String → ToolResult → Type 0) (results : List ToolResult)
    (found : List (String × ToolResult))
    → ((r : ToolResult) → Holds r results → P r.tool_call_id r)
    → Every P found
    → Every P (put_results results found)
unfolding put_results
put_results-IsPut P [] found holds every = every
put_results-IsPut P (result ∷ results) found holds every =
    put_results-IsPut P results _ (λ r h. holds r (behind h))
      (dict_set-Every P result.tool_call_id result found (holds result front) every)

pub put_results_keeps :
    (results : List ToolResult) (found : List (String × ToolResult)) (key : String)
    → ((r : ToolResult) → Holds r results → str_eq r.tool_call_id key ≡ false)
    → dict_get key (put_results results found) ≡ dict_get key found
unfolding put_results
put_results_keeps [] found key others = refl
put_results_keeps (result ∷ results) found key others =
    put_results_keeps results _ key (λ r h. others r (behind h))
    ∙ dict_get_other key result.tool_call_id result found (others result front)

unfoldable pub HasResult : List (String × ToolResult) → String → Type 0
HasResult found key = (r : ToolResult) × (dict_get key found ≡ some r)

dict_set-HasResult :
    (found : List (String × ToolResult)) (result : ToolResult) (key : String)
    → str_eq result.tool_call_id key ≡ true
    → HasResult (dict_set result.tool_call_id result found) key
unfolding HasResult
dict_set-HasResult found result key same =
    (result, rw (dict_get-dict_set key result.tool_call_id result found, same) refl)

dict_set_keeps :
    (found : List (String × ToolResult)) (result : ToolResult) (key : String)
    → HasResult found key
    → HasResult (dict_set result.tool_call_id result found) key
unfolding HasResult
dict_set_keeps found result key old = elim (Bool-cases (str_eq result.tool_call_id key)) [
  | inl same ↦ dict_set-HasResult found result key same
  | inr other ↦ (old.0, dict_get_other key result.tool_call_id result found other ∙ old.1)
]

pub put_results-HasResult :
    (results : List ToolResult) (found : List (String × ToolResult)) (key : String)
    → HasResult found key
      ⊎ ((r : ToolResult) × Holds r results × (str_eq r.tool_call_id key ≡ true))
    → HasResult (put_results results found) key
unfolding put_results
put_results-HasResult [] found key (inl old) = old
put_results-HasResult [] found key (inr new) = elim new.1 [ ]
put_results-HasResult (result ∷ results) found key (inl old) =
    put_results-HasResult results _ key (inl (dict_set_keeps found result key old))
put_results-HasResult (result ∷ results) found key (inr (r, h, same)) = elim (Holds-cases h) [
  | inl is_result ↦ put_results-HasResult results _ key (
      inl (
        dict_set-HasResult found result key
          (ap (λ (x : ToolResult). str_eq x.tool_call_id key) (sym is_result) ∙ same)))
  | inr rest ↦ put_results-HasResult results _ key (inr (r, rest, same))
]
