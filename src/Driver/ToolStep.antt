-- ===== src/Driver/ToolStep.antt =====
-- core/tool_step.py: the results that the Core makes itself, and the messages that results become.
use Prim.Native.String.{◌++◌}
use codepilot_stable.Base.{
  ℕ, String, Bool, true, false, not, none, some, List, [], map, filter, Result, ok, ◌>>=◌, traverse,
}
use codepilot_stable.Literals.{ToolStatus, ToolErrorKind}
use codepilot_stable.Text.Decimal.{show}
use codepilot_stable.Tools.{ToolCall, ToolResult, require_text, new_tool_error}
use codepilot_stable.Driver.Types.{Message, tool_message}

-- a result of a call that the Core closes itself
unfoldable pub own_result :
    ToolStatus → String → ToolErrorKind → String → Bool → ToolCall → Result ToolResult
unfolding new_tool_error require_text
own_result status code kind message retryable call = do
  error ← new_tool_error code kind message retryable
  id ← require_text call.id
  name ← require_text call.name
  ok (record {
    tool_call_id = id;
    tool_name = name;
    status = status;
    error = some error;
    effects = [];
    verification = none;
    approval = none;
    interaction = none;
  })

unfoldable pub interrupted_tool_results : List ToolCall → String → String → Result (List ToolResult)
unfolding own_result traverse
interrupted_tool_results calls code message =
    traverse (own_result ToolStatus.interrupted code ToolErrorKind.interrupted message true) calls

unfoldable pub deferred_tool_results : List ToolCall → ℕ → Result (List ToolResult)
unfolding own_result traverse show
deferred_tool_results calls limit =
    traverse
      (own_result ToolStatus.interrupted "core.tool_deferred" ToolErrorKind.interrupted
        ("Core deferred this Tool call because the per-turn execution limit is "
          ++ show limit
          ++ ". "
          ++ "Re-issue the call in a later model turn if it is still needed.")
        true)
      calls

-- the result of one call without tools
abbrev pub unavailable_result : ToolCall → Result ToolResult
unavailable_result call =
    own_result ToolStatus.error "tool_not_found" ToolErrorKind.unavailable
      ("Tool is unavailable: " ++ call.name) false call

unfoldable pub unavailable_tool_results : List ToolCall → Result (List ToolResult)
unfolding own_result traverse
unavailable_tool_results calls = traverse unavailable_result calls

-- `status in {"approval_required", "user_input_required"}`
abbrev pub waits_for_user : ToolStatus → Bool
waits_for_user ToolStatus.approval_required = true
waits_for_user ToolStatus.user_input_required = true
waits_for_user _ = false

abbrev pub is_final_result : ToolResult → Bool
is_final_result result = not (waits_for_user result.status)

unfoldable pub project_final_tool_messages : List ToolResult → List Message
unfolding filter
project_final_tool_messages results = map tool_message (filter is_final_result results)
