-- ===== src/Driver/Transcript/Settled.antt =====
-- core/transcript.py and core/tool_step.py: the open calls of a transcript after their results.
use mathlib.Core.Path.{subst}
use codepilot_stable.Base.{
  String, Bool, true, not, List, [], ◌∷◌, ◌++◌, ◌≡◌, refl, sym, ap, ◌∙◌, map, filter, All,
  Bool-cases, inl, inr, ok, on_ok, ok_injective, traverse,
}
use codepilot_stable.Literals.{ToolStatus, ToolErrorKind}
use codepilot_stable.Text.{strip, is_empty}
use codepilot_stable.Tools.{ToolCall, ToolResult, require_text, new_tool_error}
use codepilot_stable.Driver.Types.{Message, assistant_message, tool_message, user_message}
use codepilot_stable.Driver.ToolStep.{
  is_final_result, waits_for_user, own_result, interrupted_tool_results,
  project_final_tool_messages,
}
use codepilot_stable.Driver.Transcript.{requested, settled_ids, is_open, unsettled_tool_calls}
use codepilot_stable.Driver.Transcript.Open.{
  IsById, requested-IsById, open_ids, open_ids-IsCovered, none_open,
}

-- results alone
results_of : List ToolResult → List Message
results_of results = map tool_message results

requested_results :
    (messages : List Message) (results : List ToolResult) (calls : List (String × ToolCall))
    → requested (messages ++ results_of results) calls ≡ requested messages calls
unfolding requested results_of
requested_results [] [] calls = refl
requested_results [] (result ∷ results) calls = requested_results [] results calls
requested_results (assistant_message blocks ∷ messages) results calls =
    requested_results messages results _
requested_results (tool_message result ∷ messages) results calls =
    requested_results messages results calls
requested_results (user_message text ∷ messages) results calls =
    requested_results messages results calls

settled_results :
    (messages : List Message) (results : List ToolResult)
    → settled_ids (messages ++ results_of results)
      ≡ settled_ids messages ++ map (λ (r : ToolResult). r.tool_call_id) results
unfolding settled_ids results_of
settled_results [] [] = refl
settled_results [] (result ∷ results) =
    ap (λ ids. result.tool_call_id ∷ ids) (settled_results [] results)
settled_results (assistant_message blocks ∷ messages) results = settled_results messages results
settled_results (tool_message result ∷ messages) results =
    ap (λ ids. result.tool_call_id ∷ ids) (settled_results messages results)
settled_results (user_message text ∷ messages) results = settled_results messages results

-- The calls' ids have no blanks around them.
abbrev pub AreTrim : List ToolCall → Type 0
AreTrim = All (λ (call : ToolCall). strip call.id ≡ call.id)

require_text-ok : (value text : String) → require_text value ≡ ok text → text ≡ strip value
unfolding require_text
require_text-ok value text h = elim (Bool-cases (is_empty (strip value))) [
  | inl e ↦ let h' = rw e at h in cc
  | inr e ↦ sym (ok_injective (rw e at h))
]

own_result-ok :
    (status : ToolStatus) (code : String) (kind : ToolErrorKind) (message : String)
    (retryable : Bool) (call : ToolCall) (result : ToolResult)
    → own_result status code kind message retryable call ≡ ok result
    → (result.tool_call_id ≡ strip call.id) × (result.status ≡ status)
unfolding own_result
own_result-ok status code kind message retryable call result h =
    on_ok (new_tool_error code kind message retryable) _ h (λ error e h1.
      on_ok (require_text call.id) _ h1 (λ id e1 h2.
        on_ok (require_text call.name) _ h2 (λ name e2 h3.
          subst (λ (r : ToolResult). (r.tool_call_id ≡ strip call.id) × (r.status ≡ status))
            (ok_injective h3) (require_text-ok call.id id e1, refl))))

project_final-∷ :
    (result : ToolResult) (results : List ToolResult)
    → result.status ≡ ToolStatus.interrupted
    → project_final_tool_messages (result ∷ results)
      ≡ tool_message result ∷ project_final_tool_messages results
unfolding project_final_tool_messages filter
project_final-∷ result results h =
    let final : is_final_result result ≡ true = ap (λ status. not (waits_for_user status)) h in
    rw (final, filter) refl

-- The results become one message each, with the ids of the calls.
interrupted_results :
    (calls : List ToolCall) (code message : String) (results : List ToolResult)
    → AreTrim calls
    → interrupted_tool_results calls code message ≡ ok results
    → (project_final_tool_messages results ≡ results_of results)
      × (map (λ (r : ToolResult). r.tool_call_id) results
          ≡ map (λ (call : ToolCall). call.id) calls)
unfolding interrupted_tool_results results_of traverse project_final_tool_messages filter
interrupted_results [] code message results trim h =
    subst
      (λ (rs : List ToolResult).
        (project_final_tool_messages rs ≡ results_of rs)
        × (map (λ (r : ToolResult). r.tool_call_id) rs ≡ []))
      (ok_injective h) (refl, refl)
interrupted_results (call ∷ calls) code message results trim h =
    on_ok (own_result ToolStatus.interrupted code ToolErrorKind.interrupted message true call) _ h
      (λ first made h1.
        on_ok
          (traverse (own_result ToolStatus.interrupted code ToolErrorKind.interrupted message true)
            calls)
          _ h1
          (λ rest made' h2.
            let known = own_result-ok _ code _ message true call first made in
            let (shown, ids) = interrupted_results calls code message rest trim.1 made' in
            let id = known.0 ∙ trim.0 in
            subst
              (λ (rs : List ToolResult).
                (project_final_tool_messages rs ≡ results_of rs)
                × (map (λ (r : ToolResult). r.tool_call_id) rs
                    ≡ call.id ∷ map (λ (c : ToolCall). c.id) calls))
              (ok_injective h2)
              (
                project_final-∷ first rest known.1 ∙ ap (λ ms. tool_message first ∷ ms) shown,
                rw (id, ids) refl,
              )))

map_ids :
    (entries : List (String × ToolCall))
    → map (λ (call : ToolCall). call.id) (map (λ (entry : String × ToolCall). entry.1) entries)
      ≡ map (λ (entry : String × ToolCall). entry.1.id) entries
map_ids [] = refl
map_ids (entry ∷ entries) = ap (λ ids. entry.1.id ∷ ids) (map_ids entries)

-- Once each open call has an interrupted result, no call is open.
pub unsettled_tool_calls_settled :
    (messages : List Message) (code message : String) (results : List ToolResult)
    → AreTrim (unsettled_tool_calls messages)
    → interrupted_tool_results (unsettled_tool_calls messages) code message ≡ ok results
    → unsettled_tool_calls (messages ++ project_final_tool_messages results) ≡ []
unfolding unsettled_tool_calls open_ids IsById
unsettled_tool_calls_settled messages code message results trim h =
    let settled = settled_ids messages in
    let entries = requested messages [] in
    let (shown, ids) =
      interrupted_results (unsettled_tool_calls messages) code message results trim h in
    let ids' = ids ∙ map_ids (filter (is_open settled) entries) in
    let covered = open_ids-IsCovered settled entries (requested-IsById messages [] tt) in
    let closed = none_open settled (open_ids settled entries) entries covered in
    rw (shown, requested_results messages results [], settled_results messages results, ids')
      (ap (map (λ (entry : String × ToolCall). entry.1)) closed)
