-- ===== src/Driver/Transcript.antt =====
-- core/transcript.py: which calls of a transcript have no result yet.
pub mod Settled
mod Open
use codepilot_stable.Base.{
  ℕ, String, Bool, true, false, ◌&&◌, not, Option, none, some, List, [], ◌∷◌, map, filter, contains,
  any, all, length, ◌==◌, dict_set, if◌then◌else◌, ◌++◌, from_keys,
}
use codepilot_stable.Tools.{
  ToolCall, ToolResult, AssistantBlock, call_block, text_block, other_block,
}
use codepilot_stable.Driver.Types.{Message, assistant_message, tool_message, user_message}

-- `calls[block.id] = block` over the blocks of a message
unfoldable pub put_calls : List AssistantBlock → List (String × ToolCall) → List (String × ToolCall)
unfolding dict_set
put_calls [] calls = calls
put_calls (call_block call ∷ blocks) calls = put_calls blocks (dict_set call.id call calls)
put_calls (text_block text ∷ blocks) calls = put_calls blocks calls
put_calls (other_block ∷ blocks) calls = put_calls blocks calls

-- `calls` after the loop
unfoldable pub requested : List Message → List (String × ToolCall) → List (String × ToolCall)
unfolding put_calls
requested [] calls = calls
requested (assistant_message blocks ∷ messages) calls = requested messages (put_calls blocks calls)
requested (tool_message result ∷ messages) calls = requested messages calls
requested (user_message text ∷ messages) calls = requested messages calls

-- `settled` after the loop
unfoldable pub settled_ids : List Message → List String
settled_ids [] = []
settled_ids (tool_message result ∷ messages) = result.tool_call_id ∷ settled_ids messages
settled_ids (assistant_message blocks ∷ messages) = settled_ids messages
settled_ids (user_message text ∷ messages) = settled_ids messages

unfoldable pub is_open : List String → String × ToolCall → Bool
unfolding contains
is_open settled entry = not (contains entry.0 settled)

unfoldable pub unsettled_tool_calls : List Message → List ToolCall
unfolding requested settled_ids is_open filter
unsettled_tool_calls messages =
    map (λ (entry : String × ToolCall). entry.1)
      (filter (is_open (settled_ids messages)) (requested messages []))

-- The last message of the assistant: what a later one says counts.
unfoldable pub last_assistant_message : List Message → Option (List AssistantBlock)
last_assistant_message [] = none
last_assistant_message (assistant_message blocks ∷ messages) =
    elim (last_assistant_message messages) [ some later ↦ some later | none ↦ some blocks ]
last_assistant_message (tool_message result ∷ messages) = last_assistant_message messages
last_assistant_message (user_message text ∷ messages) = last_assistant_message messages
