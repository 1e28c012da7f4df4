-- ===== src/Driver/Batch/Complete.antt =====
-- core/driver.py, `_complete_results`: the batch of results that comes back.
use codepilot_stable.Base.{
  String, true, List, [], ◌∷◌, ◌≡◌, ◌≢◌, refl, map, filter, contains, any, All, Holds, front,
  behind, str_eq, eq_iff, Bool-cases, inl, inr, ◌⊎◌, ok,
}
use codepilot_stable.Tools.{ToolCall, ToolResult}
use codepilot_stable.Driver.Batch.{put_results, is_missing, result_of, complete_results}
use codepilot_stable.Driver.Batch.Tables.{filter-Holds, traverse_returns, Holds-All, All-Holds}
use codepilot_stable.Driver.Batch.Found.{
  AreDistinct, by_call_id_returns, put_results-IsPut, HasResult,
}
use codepilot_stable.Driver.Batch.Closed.{
  IsNamed, incomplete_result, interrupted_tool_results-IsNamed, IsFrom, closed_calls, result_of-ok,
  ok-result_of, closed_calls-IsFrom, closed_calls-HasResult, given_result,
}

-- A text of a list of ids is the id of a call.
contains-Holds :
    (key : String) (calls : List ToolCall)
    → contains key (map (λ (call : ToolCall). call.id) calls) ≡ true
    → (call : ToolCall) × Holds call calls × (call.id ≡ key)
unfolding contains any
contains-Holds key [] h = cc
contains-Holds key (call ∷ calls) h = elim (Bool-cases (str_eq call.id key)) [
  | inl same ↦ (call, front, (eq_iff call.id key).0 same)
  | inr other ↦
      let (found, there, e) = contains-Holds key calls (rw other at h) in (found, behind there, e)
]

-- One result for each call, in the order of the calls: each that was given, and for every other
-- call the one that tells that it came back with none.
abbrev pub IsBatch : List ToolCall → List ToolResult → List ToolResult → Type 0
IsBatch calls results batch =
    (map (λ (r : ToolResult). r.tool_call_id) batch ≡ map (λ (call : ToolCall). call.id) calls)
    × All (λ (r : ToolResult). Holds r batch) results
    × All
        (λ (r : ToolResult).
          Holds r results
          ⊎ ((call : ToolCall) × Holds call calls
              × All (λ (given : ToolResult). given.tool_call_id ≢ call.id) results
              × (r ≡ incomplete_result call)))
        batch

-- Where each result is of a call of the batch, no two are of one call, and the calls have names and
-- ids that are no blank texts, the ids without blanks around them, the batch comes back with one
-- result for each call, in the order of the calls. The results that were given are among them, and
-- every other one is of a call that no given result is of, and tells that it was interrupted.
pub complete_results-IsBatch :
    (calls : List ToolCall) (results : List ToolResult)
    → All
        (λ (r : ToolResult).
          contains r.tool_call_id (map (λ (call : ToolCall). call.id) calls) ≡ true)
        results
    → AreDistinct results
    → All IsNamed calls
    → (batch : List ToolResult) × (complete_results calls results ≡ ok batch)
      × IsBatch calls results batch
unfolding complete_results IsFrom HasResult
complete_results-IsBatch calls results known_all distinct named =
    let known : (r : ToolResult)
        → Holds r results
        → contains r.tool_call_id (map (λ (call : ToolCall). call.id) calls) ≡ true =
      λ r in_results.
        All-Holds
          (λ (x : ToolResult).
            contains x.tool_call_id (map (λ (call : ToolCall). call.id) calls) ≡ true)
          in_results known_all in
    let (table, e, put, kept, every) =
      by_call_id_returns (IsFrom calls results) _ results [] known (λ r h. refl) given distinct
        (λ key r h. absurd (cc)) in
    let closes =
      interrupted_tool_results-IsNamed (filter (is_missing table) calls)
        (λ call there. All-Holds IsNamed (filter-Holds (is_missing table) calls there).0 named) in
    let full = put_results (closed_calls calls table) table in
    let from =
      put_results-IsPut (IsFrom calls results) (closed_calls calls table) table
        (closed_calls-IsFrom calls results table put) every in
    let (batch, returns, ids, there, back) =
      traverse_returns (result_of full) (λ (call : ToolCall). call.id)
        (λ (r : ToolResult). r.tool_call_id) calls
        (λ call in_calls.
          let (r, found) = closed_calls-HasResult calls results table put call in_calls in
          (r, result_of-ok full call r found, (from call.id r found).0)) in
    (
      batch,
      rw (e, closes) returns,
      (
        ids,
        Holds-All (λ (r : ToolResult). Holds r batch) results
            (λ r in_results.
              let (call, in_calls, same) =
                contains-Holds r.tool_call_id calls (known r in_results) in
              there call r in_calls (given_result calls results table put call r in_results same)),
        Holds-All _ batch (λ r in_batch.
            let (call, in_calls, read) = back r in_batch in
            (from call.id r (ok-result_of full call r read)).1),
      ),
    )
  where
    given : (r : ToolResult) → Holds r results → IsFrom calls results r.tool_call_id r
    given r h = (refl, inl h)
