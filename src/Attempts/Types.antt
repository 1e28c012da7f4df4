-- ===== src/Attempts/Types.antt =====
-- The values of tools/state.py.
use codepilot_stable.Base.{ℕ, String, Bool, Option, List}
use codepilot_stable.Tools.{ToolResult}
use codepilot_stable.Security.Types.{ToolExecutionRequest, ApprovalChallenge, ApprovalGrant}

pub data ToolAttemptState : Type 0 where
  received validating resolving_access awaiting_approval awaiting_input queued running succeeded
        failed denied timed_out cancelled interrupted :
      ToolAttemptState

pub record InteractionRequest : Type 0 where
  pub interaction_id : String
  pub request_fingerprint : String
  pub session_id : String
  pub tool_call_id : String
  pub tool_name : String
  pub registration_id : String
  pub prompt : String
  pub options : List String
  pub allow_free_text : Bool
  pub created_at_ms : ℕ

pub record ToolAttemptRecord : Type 0 where
  pub attempt_id : String
  pub request : ToolExecutionRequest
  pub state : ToolAttemptState
  pub challenge : Option ApprovalChallenge
  pub interaction : Option InteractionRequest
  pub interaction_consumed : Bool
  pub grant : Option ApprovalGrant
  pub grant_consumed : Bool
  pub result : Option ToolResult
  pub cleanup_errors : List String

-- A keyword argument of `transition`: the fields that its callers give.
pub data Change : Type 0 where
  set_challenge : ApprovalChallenge → Change
  set_interaction : InteractionRequest → Change
  set_interaction_consumed : Bool → Change
  set_grant : ApprovalGrant → Change
  set_grant_consumed : Bool → Change
  set_result : ToolResult → Change
  set_cleanup_errors : List String → Change

-- `_attempts`, `_approval_index` and `_interaction_index` of `InMemoryToolStateStore`
pub record ToolStateStore : Type 0 where
  pub attempts : List (String × ToolAttemptRecord)
  pub approval_index : List (String × String)
  pub interaction_index : List (String × String)
