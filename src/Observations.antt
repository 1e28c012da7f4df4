-- ===== src/Observations.antt =====
-- core/observations.py: what the reducer consumes, with the checks that each value passes.
use codepilot_stable.Base.{
  ℕ, String, Bool, true, false, ◌&&◌, not, Option, List, ltb, if◌then◌else◌, value_error, Result,
  ok, err, ◌>>=◌, ◌>>◌, guard,
}
use codepilot_stable.Literals.{ModelObservationStatus, ModelPurpose}
use codepilot_stable.Text.{is_empty, strip}
use codepilot_stable.State.{FailureRecord, is_none, optional_text_of}
use codepilot_stable.Commands.{CoreCommand}
use codepilot_stable.Tools.{
  ToolCall, ToolResult, AssistantBlock, call_block, text_block, other_block,
}

-- `message` is the list of the message's content blocks.
pub record ModelObservation : Type 0 where
  pub observation_id : String
  pub message : Option (List AssistantBlock)
  pub status : ModelObservationStatus
  pub error : Option FailureRecord
  pub purpose : ModelPurpose
  pub attempts : ℕ

pub record ToolBatchObservation : Type 0 where
  pub observation_id : String
  pub calls : List ToolCall
  pub results : List ToolResult
  pub commands : List CoreCommand

pub record UserInputObservation : Type 0 where
  pub observation_id : String
  pub text : String
  pub current_goal : Option String

pub record CancellationObservation : Type 0 where
  pub observation_id : String
  pub reason : String

pub data CoreObservation : Type 0 where
  model : ModelObservation → CoreObservation
  tool_batch : ToolBatchObservation → CoreObservation
  user_input : UserInputObservation → CoreObservation
  core_command : String → CoreCommand → CoreObservation
  cancellation : CancellationObservation → CoreObservation

abbrev pub observation_id : CoreObservation → String
observation_id (model o) = o.observation_id
observation_id (tool_batch o) = o.observation_id
observation_id (user_input o) = o.observation_id
observation_id (core_command id command) = id
observation_id (cancellation o) = o.observation_id

-- `_required_text`
unfoldable pub required_text : String → Result String
required_text value =
    let stripped = strip value in if is_empty stripped then err value_error else ok stripped

abbrev pub is_failed : ModelObservationStatus → Bool
is_failed ModelObservationStatus.failed = true
is_failed _ = false

unfoldable pub init_model : ModelObservation → Result ModelObservation
init_model o = do
  id ← required_text o.observation_id
  guard (not (is_failed o.status && is_none o.error)) value_error
  guard (ltb 0 o.attempts) value_error
  ok (record o { observation_id = id })

unfoldable pub init_tool_batch : ToolBatchObservation → Result ToolBatchObservation
init_tool_batch o = do id ← required_text o.observation_id; ok (record o { observation_id = id })

unfoldable pub init_user_input : UserInputObservation → Result UserInputObservation
init_user_input o = do
  id ← required_text o.observation_id
  stripped ← required_text o.text
  ok (record {
    observation_id = id;
    text = stripped;
    current_goal = optional_text_of o.current_goal;
  })

-- `CoreCommandObservation(observation_id, command)`
unfoldable pub init_core_command : String → CoreCommand → Result CoreObservation
init_core_command id command = do id' ← required_text id; ok (core_command id' command)

unfoldable pub init_cancellation : CancellationObservation → Result CancellationObservation
init_cancellation o = do
  id ← required_text o.observation_id
  reason ← required_text o.reason
  ok (record { observation_id = id; reason = reason })

-- `isinstance(block, TextContent) and bool(block.text.strip())`
unfoldable pub is_text : AssistantBlock → Bool
is_text (text_block s) = not (is_empty (strip s))
is_text (call_block call) = false
is_text other_block = false

-- `isinstance(block, ToolCall)`
abbrev pub is_call : AssistantBlock → Bool
is_call (text_block s) = false
is_call (call_block call) = true
is_call other_block = false
