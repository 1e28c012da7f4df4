-- ===== src/Reducer/ToolBatch/Unique.antt =====
-- The results of a batch that count: one for each call.
use codepilot_stable.Base.{
  ◌≡◌, refl, sym, ap, ◌∙◌, String, not, List, [], ◌∷◌, filter, any, contains, from_keys, eq_iff,
  str_eq, arith, Bool-cases, Option, none, some, if◌then◌else◌, inl, inr,
}
use codepilot_stable.Base.Dedup.{not_eq_of, filter-filter_of_weaker}
use codepilot_stable.Tools.{ToolResult}
use codepilot_stable.Reducer.ToolBatch.{unique_results, call_ids}

filter_seen_next :
    (id : String) (seen xs : List String)
    → filter (λ y. not (contains y (id ∷ seen))) xs
      ≡ filter (λ y. not (contains y seen)) (filter (λ y. not (str_eq y id)) xs)
unfolding filter contains any
filter_seen_next id seen [] = refl
filter_seen_next id seen (y ∷ xs) =
    ground (arith, filter_seen_next id seen xs, eq_iff y id, eq_iff id y)

unique_unseen :
    (results : List ToolResult) (seen : List String)
    → call_ids (unique_results seen results)
      ≡ filter (λ id. not (contains id seen)) (from_keys (call_ids results))
unfolding unique_results from_keys filter
unique_unseen [] seen = refl
unique_unseen (result ∷ results) seen = elim (Bool-cases (contains result.tool_call_id seen)) [
  | inl there ↦
      rw (unique_results, there)
        (unique_unseen results seen
          ∙ sym (
              filter-filter_of_weaker (λ y. not (contains y seen))
                (λ y. not (str_eq y result.tool_call_id)) (from_keys (call_ids results))
                (λ y. not_eq_of (λ z. not (contains z seen)) result.tool_call_id y (ap not there))))
  | inr fresh ↦
      rw (unique_results, fresh)
        (ap (λ l. result.tool_call_id ∷ l)
          (unique_unseen results (result.tool_call_id ∷ seen)
            ∙ filter_seen_next result.tool_call_id seen (from_keys (call_ids results))))
]

filter_all : (xs : List String) → filter (λ id. not (contains id [])) xs ≡ xs
unfolding filter contains any
filter_all [] = refl
filter_all (x ∷ xs) = ap (λ l. x ∷ l) (filter_all xs)

-- the first result of a call
unfoldable pub find_call : String → List ToolResult → Option ToolResult
find_call id [] = none
find_call id (result ∷ results) =
    let rest = find_call id results in if str_eq result.tool_call_id id then some result else rest

find_call-unique_results :
    (results : List ToolResult) (seen : List String) (id : String)
    → find_call id (unique_results seen results)
      ≡ (if contains id seen then none else find_call id results)
unfolding find_call unique_results contains any
find_call-unique_results [] seen id = ground arith
find_call-unique_results (result ∷ results) seen id = ground (
  arith,
  find_call-unique_results results seen id,
  find_call-unique_results results (result.tool_call_id ∷ seen) id,
  eq_iff result.tool_call_id id,
)

-- Of a batch the first result of each call counts, in the order of the batch: the call ids that are
-- left are the ids of the batch without their repetitions, and what is left for an id is the first
-- result of the batch with this id.
pub unique_results_once :
    (results : List ToolResult) (id : String)
    → (call_ids (unique_results [] results) ≡ from_keys (call_ids results))
      × (find_call id (unique_results [] results) ≡ find_call id results)
unfolding contains any
unique_results_once results id = (
  unique_unseen results [] ∙ filter_all (from_keys (call_ids results)),
  find_call-unique_results results [] id,
)
