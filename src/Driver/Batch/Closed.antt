-- ===== src/Driver/Batch/Closed.antt =====
-- core/driver.py, `_complete_results`: the results that close the calls that came back with none.
use codepilot_stable.Base.{
  String, true, false, none, some, List, [], ◌∷◌, ◌≡◌, ◌≢◌, refl, ap, ◌∙◌, map, filter, All, Holds,
  front, behind, dict_get, str_eq, eq_iff, eq_refl, Bool-cases, Option-cases, inl, inr, ◌⊎◌, ok,
  traverse,
}
use codepilot_stable.Literals.{ToolStatus, ToolErrorKind}
use codepilot_stable.Tools.{ToolCall, ToolResult, require_text, new_tool_error}
use codepilot_stable.Driver.ToolStep.{own_result, interrupted_tool_results}
use codepilot_stable.Text.{is_space, is_empty, lstrip, rstrip, strip}
use codepilot_stable.Driver.Batch.{put_results, is_missing, result_of}
use codepilot_stable.Driver.Batch.Tables.{
  Holds-map, map-Holds, Holds-filter, filter-Holds, Holds-All,
}
use codepilot_stable.Driver.Batch.Found.{IsPut, put_results_keeps, HasResult, put_results-HasResult}

-- A call whose id is a text without blanks around it, and whose name is not blank
abbrev pub IsNamed : ToolCall → Type 0
IsNamed call =
    (strip call.id ≡ call.id) × (is_empty call.id ≡ false) × (is_empty (strip call.name) ≡ false)

-- the result that a call gets which came back with none
abbrev pub incomplete_result : ToolCall → ToolResult
incomplete_result call = record {
  tool_call_id = call.id;
  tool_name = strip call.name;
  status = ToolStatus.interrupted;
  error = some (record {
    code = "tool.batch.incomplete";
    kind = ToolErrorKind.interrupted;
    message = "Tool execution returned no final result for this call.";
    retryable = true;
  });
  effects = [];
  verification = none;
  approval = none;
  interaction = none;
}

new_tool_error-incomplete :
    new_tool_error "tool.batch.incomplete" ToolErrorKind.interrupted
      "Tool execution returned no final result for this call." true
    ≡ ok (record {
      code = "tool.batch.incomplete";
      kind = ToolErrorKind.interrupted;
      message = "Tool execution returned no final result for this call.";
      retryable = true;
    })
unfolding new_tool_error require_text is_space is_empty lstrip rstrip strip
new_tool_error-incomplete = refl

own_result-incomplete_result :
    (call : ToolCall)
    → IsNamed call
    → own_result ToolStatus.interrupted "tool.batch.incomplete" ToolErrorKind.interrupted
        "Tool execution returned no final result for this call." true call
      ≡ ok (incomplete_result call)
unfolding own_result require_text
own_result-incomplete_result call named =
    rw (new_tool_error-incomplete, named.0, named.1, named.2) refl

pub interrupted_tool_results-IsNamed :
    (calls : List ToolCall)
    → ((call : ToolCall) → Holds call calls → IsNamed call)
    → interrupted_tool_results calls "tool.batch.incomplete"
        "Tool execution returned no final result for this call."
      ≡ ok (map incomplete_result calls)
unfolding interrupted_tool_results traverse
interrupted_tool_results-IsNamed [] named = refl
interrupted_tool_results-IsNamed (call ∷ calls) named =
    rw
      (
        own_result-incomplete_result call (named call front),
        interrupted_tool_results-IsNamed calls (λ c there. named c (behind there)),
      )
      refl

-- where a result of a batch comes from
unfoldable pub IsFrom : List ToolCall → List ToolResult → String → ToolResult → Type 0
IsFrom calls results key result =
    (result.tool_call_id ≡ key)
    × (Holds result results
        ⊎ ((call : ToolCall) × Holds call calls
            × All (λ (given : ToolResult). given.tool_call_id ≢ call.id) results
            × (result ≡ incomplete_result call)))

-- `missing`, closed by results of its own
abbrev pub closed_calls : List ToolCall → List (String × ToolResult) → List ToolResult
closed_calls calls table = map incomplete_result (filter (is_missing table) calls)

is_missing-none :
    (table : List (String × ToolResult)) (call : ToolCall)
    → is_missing table call ≡ true
    → dict_get call.id table ≡ none
is_missing-none table call h = elim (Option-cases (dict_get call.id table)) [
  | inl absent ↦ absent
  | inr (r, there) ↦ let h' = rw (there, is_missing) at h in cc
]

pub result_of-ok :
    (table : List (String × ToolResult)) (call : ToolCall) (r : ToolResult)
    → dict_get call.id table ≡ some r
    → result_of table call ≡ ok r
unfolding result_of
result_of-ok table call r there = rw (there, result_of) refl

pub ok-result_of :
    (table : List (String × ToolResult)) (call : ToolCall) (r : ToolResult)
    → result_of table call ≡ ok r
    → dict_get call.id table ≡ some r
unfolding result_of
ok-result_of table call r h = elim (Option-cases (dict_get call.id table)) [
  | inl absent ↦ let h' = rw (absent, result_of) at h in cc
  | inr (r', there) ↦ let h' = rw (there, result_of) at h in cc
]

-- A table of results, where each of them stands in it.
module _ (calls : List ToolCall) (results : List ToolResult) (table : List (String × ToolResult))
    (put : (r : ToolResult) → Holds r results → IsPut table r) where
  closed_calls-missing :
      (r : ToolResult)
      → Holds r (closed_calls calls table)
      → (call : ToolCall) × Holds call calls
        × (dict_get call.id table ≡ none)
        × (r ≡ incomplete_result call)
  closed_calls-missing r h =
      let (call, in_filter, e) = map-Holds incomplete_result (filter (is_missing table) calls) h in
      let old = filter-Holds (is_missing table) calls in_filter in
      (call, old.0, is_missing-none table call old.1, e)

  pub closed_calls-IsFrom :
      (r : ToolResult) → Holds r (closed_calls calls table) → IsFrom calls results r.tool_call_id r
  unfolding IsFrom
  closed_calls-IsFrom r h =
      let (call, in_calls, absent, e) = closed_calls-missing r h in
      (
        refl,
        inr (
          call,
          in_calls,
          Holds-All (λ (given : ToolResult). given.tool_call_id ≢ call.id) results
              (λ given in_results same.
                let there = put given in_results in let there' = rw (same, absent) at there in cc),
          e,
        ),
      )

  pub closed_calls-HasResult :
      (call : ToolCall)
      → Holds call calls
      → HasResult (put_results (closed_calls calls table) table) call.id
  unfolding HasResult
  closed_calls-HasResult call in_calls =
      put_results-HasResult (closed_calls calls table) table call.id
        (elim (Option-cases (dict_get call.id table)) [
          | inl absent ↦ inr (
            incomplete_result call,
            Holds-map incomplete_result
                (Holds-filter (is_missing table) (rw (absent, is_missing) refl) in_calls),
            eq_refl call.id,
          )
          | inr (r, there) ↦ inl (r, there)
        ])

  pub given_result :
      (call : ToolCall) (r : ToolResult)
      → Holds r results
      → call.id ≡ r.tool_call_id
      → result_of (put_results (closed_calls calls table) table) call ≡ ok r
  given_result call r in_results same = result_of-ok _ call r (
      put_results_keeps (closed_calls calls table) table call.id others
      ∙ rw same (put r in_results))
    where
      others :
          (closed : ToolResult)
          → Holds closed (closed_calls calls table)
          → str_eq closed.tool_call_id call.id ≡ false
      others closed h =
          let (c, in_calls, absent, e) = closed_calls-missing closed h in
          elim (Bool-cases (str_eq closed.tool_call_id call.id)) [
            | inl equal ↦
                let e' = (eq_iff closed.tool_call_id call.id).0 equal in
                let there = put r in_results in
                let id : closed.tool_call_id ≡ c.id = ap (λ (x : ToolResult). x.tool_call_id) e in
                absurd (cc)
            | inr other ↦ other
          ]
