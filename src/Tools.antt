-- ===== src/Tools.antt =====
-- What the Core reads of tools/results.py, tools/security.py and protocols/conversation.py: tool
-- calls, tool results and their effects, and the blocks of a model's message. Fields that no
-- function of the Core reads are left out.
use codepilot_stable.Base.{
  ℕ, String, Bool, true, false, ◌&&◌, ◌||◌, not, Option, none, some, List, map, filter, from_keys,
  str_eq, ltb, length, ◌==◌, if◌then◌else◌, Result, ok, err, guard, value_error, ◌>>=◌, ◌>>◌,
}
use codepilot_stable.Literals.{ToolStatus, ToolErrorKind}
use codepilot_stable.Text.{is_empty, strip}
use codepilot_stable.Text.Decimal.{show}
use codepilot_stable.Text.Prefix.{starts_with}
use Prim.Native.String.{◌++◌}

-- A Python value found in a mapping. `absent` is a missing key or `None`, `negative n` is the
-- integer -(n + 1), and `other` is any further object by what the Core asks of it: its `str`,
-- whether it is true, and the natural number that it equals, if any (a float may).
pub data Value : Type 0 where
  absent : Value
  flag : Bool → Value
  number : ℕ → Value
  negative : ℕ → Value
  text : String → Value
  other : String → Bool → Option ℕ → Value

-- `bool(value)`
unfoldable pub truthy : Value → Bool
truthy absent = false
truthy (flag b) = b
truthy (number n) = ltb 0 n
truthy (negative n) = true
truthy (text s) = not (is_empty s)
truthy (other shown truth equal) = truth

-- `str(value)`
unfoldable pub str : Value → String
unfolding show
str absent = "None"
str (flag true) = "True"
str (flag false) = "False"
str (number n) = show n
str (negative n) = "-" ++ show (ℕ.suc n)
str (text s) = s
str (other shown truth equal) = shown

-- `str(value or default)`
unfoldable pub str_or : Value → String → String
unfolding truthy str
str_or value default = if truthy value then str value else default

-- `value == n`: a bool is a number too.
unfoldable pub equals_number : Value → ℕ → Bool
equals_number absent n = false
equals_number (flag true) n = n == 1
equals_number (flag false) n = n == 0
equals_number (number m) n = m == n
equals_number (negative m) n = false
equals_number (text s) n = false
equals_number (other shown truth none) n = false
equals_number (other shown truth (some m)) n = m == n

-- `arguments` is the JSON text of the arguments with sorted keys, the only use made of them.
pub record ToolCall : Type 0 where
  pub id : String
  pub name : String
  pub arguments : String

pub record ToolError : Type 0 where
  pub code : String
  pub kind : ToolErrorKind
  pub message : String
  pub retryable : Bool

pub record ToolEffect : Type 0 where
  pub kind : String
  pub status : String
  pub certainty : String
  pub uri : String

-- what `data["verification"]` holds under the keys that the Core reads
pub record VerificationData : Type 0 where
  pub status : Value
  pub verified_revision : Value
  pub command : Value

pub record ApprovalChallenge : Type 0 where
  pub approval_id : String
  pub reason : String
  pub risk : String

-- `verification` is `none` where `data` has no such key or a value that is no mapping;
-- `interaction` is the value under its key `request_id`.
pub record ToolResult : Type 0 where
  pub tool_call_id : String
  pub tool_name : String
  pub status : ToolStatus
  pub error : Option ToolError
  pub effects : List ToolEffect
  pub verification : Option VerificationData
  pub approval : Option ApprovalChallenge
  pub interaction : Option Value

abbrev pub is_success : ToolStatus → Bool
is_success ToolStatus.success = true
is_success _ = false

-- A block of an assistant message; the blocks that hold neither text nor a call are `other_block`.
pub data AssistantBlock : Type 0 where
  text_block : String → AssistantBlock
  call_block : ToolCall → AssistantBlock
  other_block : AssistantBlock

-- the effects that `workspace_effect_summary` counts
unfoldable pub changes_workspace : ToolEffect → Bool
unfolding starts_with
changes_workspace effect =
    (str_eq effect.kind "filesystem_write" || str_eq effect.kind "filesystem_delete")
    && (str_eq effect.status "completed" || str_eq effect.status "partial")
    && (str_eq effect.certainty "observed" || str_eq effect.certainty "reported")
    && starts_with "workspace:///" effect.uri

-- `workspace_effect_summary`: the paths in order, each once, and whether there are any
unfoldable pub workspace_effect_summary : List ToolEffect → List String × Bool
unfolding changes_workspace
workspace_effect_summary effects =
    let paths = from_keys (map (λ effect. effect.uri) (filter changes_workspace effects)) in
    (paths, ltb 0 (length paths))

-- `_require_text` of tools/results.py
unfoldable pub require_text : String → Result String
require_text value = let text = strip value in if is_empty text then err value_error else ok text

-- `ToolError.__post_init__`
unfoldable pub new_tool_error : String → ToolErrorKind → String → Bool → Result ToolError
unfolding require_text
new_tool_error code kind message retryable = do
  code' ← require_text code
  message' ← require_text message
  ok (record { code = code'; kind = kind; message = message'; retryable = retryable })

abbrev pub is_absent : {A : Type 0} → Option A → Bool
is_absent none = true
is_absent (some a) = false

-- The parts that a result has, by its status.
abbrev pub is_consistent : ToolResult → Bool
is_consistent r = elim r.status [
  | ToolStatus.success ↦ is_absent r.error && is_absent r.approval && is_absent r.interaction
  | ToolStatus.approval_required ↦ not (is_absent r.approval) && is_absent r.error
  | ToolStatus.user_input_required ↦ not (is_absent r.interaction) && is_absent r.error
  | _ ↦ not (is_absent r.error)
]

-- `ToolResult.__post_init__`; the id of the registration is no field here, and checked.
unfoldable pub init_result : String → ToolResult → Result ToolResult
unfolding require_text
init_result registration_id r = do
  guard (is_consistent r) value_error
  id ← require_text r.tool_call_id
  name ← require_text r.tool_name
  registered ← require_text registration_id
  ok (record r { tool_call_id = id; tool_name = name })
