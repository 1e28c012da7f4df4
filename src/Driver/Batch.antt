-- ===== src/Driver/Batch.antt =====
-- The batches of core/driver.py: the calls of one turn are bounded, and each gets one result.
pub mod Complete
mod Tables
mod Found
pub mod Closed
use codepilot_stable.Base.{
  ℕ, String, Bool, true, false, not, Option, none, some, List, [], ◌∷◌, map, filter, any, contains,
  length, leb, if◌then◌else◌, Result, ok, err, ◌>>=◌, ◌>>◌, guard, core_invariant_error, key_error,
  dict_get, dict_set, traverse,
}
use codepilot_stable.Tools.{ToolCall, ToolResult}
use codepilot_stable.Driver.ToolStep.{interrupted_tool_results, waits_for_user}
use Prim.Native.Nat.{zero, suc}

-- `calls[:limit]` and `calls[limit:]`
unfoldable pub take : ℕ → List ToolCall → List ToolCall
take zero calls = []
take (suc n) [] = []
take (suc n) (call ∷ calls) = call ∷ take n calls

unfoldable pub drop : ℕ → List ToolCall → List ToolCall
drop zero calls = calls
drop (suc n) [] = []
drop (suc n) (call ∷ calls) = drop n calls

-- `_bounded_tool_calls`
unfoldable pub bounded_tool_calls : List ToolCall → Option ℕ → List ToolCall × List ToolCall
unfolding take drop
bounded_tool_calls calls none = (calls, [])
bounded_tool_calls calls (some limit) =
    if leb (length calls) limit then (calls, []) else (take limit calls, drop limit calls)

-- the first loop of `_complete_results`: `by_call_id`
unfoldable pub by_call_id :
    List String → List ToolResult → List (String × ToolResult) → Result (List (String × ToolResult))
unfolding contains dict_get dict_set
by_call_id expected [] found = ok found
by_call_id expected (result ∷ results) found = do
  guard (contains result.tool_call_id expected) core_invariant_error
  guard (elim (dict_get result.tool_call_id found) [ none ↦ true | some other ↦ false ])
      core_invariant_error
  by_call_id expected results (dict_set result.tool_call_id result found)

-- the results that are missing are put in
unfoldable pub put_results :
    List ToolResult → List (String × ToolResult) → List (String × ToolResult)
unfolding dict_set
put_results [] found = found
put_results (result ∷ results) found =
    put_results results (dict_set result.tool_call_id result found)

abbrev pub is_missing : List (String × ToolResult) → ToolCall → Bool
is_missing found call = elim (dict_get call.id found) [ none ↦ true | some result ↦ false ]

-- `by_call_id[call.id]`
unfoldable pub result_of : List (String × ToolResult) → ToolCall → Result ToolResult
unfolding dict_get
result_of found call = elim (dict_get call.id found) [
  | none ↦ err key_error
  | some result ↦ ok result
]

-- `_complete_results`
unfoldable pub complete_results : List ToolCall → List ToolResult → Result (List ToolResult)
unfolding by_call_id put_results result_of interrupted_tool_results filter traverse
complete_results calls results = do
  found ← by_call_id (map (λ (call : ToolCall). call.id) calls) results []
  closed ←
      interrupted_tool_results (filter (is_missing found) calls) "tool.batch.incomplete"
        "Tool execution returned no final result for this call."
  traverse (result_of (put_results closed found)) calls

-- `_has_external_wait`
unfoldable pub has_external_wait : List ToolResult → Bool
unfolding any
has_external_wait results = any (λ result. waits_for_user result.status) results
