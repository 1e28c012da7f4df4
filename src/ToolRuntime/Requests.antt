-- ===== src/ToolRuntime/Requests.antt =====
-- `ToolExecutionRequest.__post_init__` of tools/contracts.py, and that the requests which it lets
-- through have the texts that the results need.
use mathlib.Core.Path.{subst}
use codepilot_stable.Base.{
  String, false, Option, none, some, ◌≡◌, refl, ok, on_ok, Result, Bool-cases, inl, inr,
  if◌then◌else◌, ◌>>=◌,
}
use codepilot_stable.Text.{is_empty, strip}
use codepilot_stable.Text.Strip.{strip_idem}
use codepilot_stable.Tools.{require_text}
use codepilot_stable.Security.Types.{ToolExecutionRequest}
use codepilot_stable.ToolRuntime.Results.{IsText, IsTextOrNone, IsChecked}

-- `_optional_text`
unfoldable pub optional_text : Option String → Option String
unfolding strip is_empty
optional_text none = none
optional_text (some value) = let text = strip value in if is_empty text then none else some text

-- `ToolExecutionRequest.__post_init__`
unfoldable pub init_request : ToolExecutionRequest → Result ToolExecutionRequest
unfolding require_text optional_text
init_request request = do
  run_id ← require_text request.run_id
  session_id ← require_text request.session_id
  tool_call_id ← require_text request.tool_call_id
  tool_name ← require_text request.tool_name
  registration_id ← require_text request.registration_id
  ok (record request {
    run_id = run_id;
    session_id = session_id;
    tool_call_id = tool_call_id;
    tool_name = tool_name;
    registration_id = registration_id;
    argument_parse_error = optional_text request.argument_parse_error;
  })

-- A text that is not empty once it is stripped passes the check again.
stripped-IsText : (s : String) → is_empty (strip s) ≡ false → IsText (strip s)
unfolding require_text
stripped-IsText s full = rw (require_text, strip_idem s, full) refl

require_text-IsText : (s t : String) → require_text s ≡ ok t → IsText t
unfolding require_text
require_text-IsText s t h = elim (Bool-cases (is_empty (strip s))) [
  | inl blank ↦ let h' = rw (require_text, blank) at h in absurd (cc)
  | inr full ↦
      let h' : ok (strip s) ≡ ok t = rw (require_text, full) at h in
      let same : strip s ≡ t = cc in subst IsText same (stripped-IsText s full)
]

optional_text-IsTextOrNone : (o : Option String) → IsTextOrNone (optional_text o)
unfolding optional_text
optional_text-IsTextOrNone none = tt
optional_text-IsTextOrNone (some s) = elim (Bool-cases (is_empty (strip s))) [
  | inl blank ↦ rw (optional_text, blank) tt
  | inr full ↦ rw (optional_text, full) (stripped-IsText s full)
]

-- A request that has been made has the texts that the results of its call need.
pub init_request-IsChecked :
    (given request : ToolExecutionRequest) → init_request given ≡ ok request → IsChecked request
unfolding init_request
init_request-IsChecked given request h = on_ok (require_text given.run_id) _ h λ run_id e1 h1.
    on_ok (require_text given.session_id) _ h1 λ session_id e2 h2.
      on_ok (require_text given.tool_call_id) _ h2 λ id e3 h3.
        on_ok (require_text given.tool_name) _ h3 λ name e4 h4.
          on_ok (require_text given.registration_id) _ h4 λ registration_id e5 h5.
            let made : record given {
              run_id = run_id;
              session_id = session_id;
              tool_call_id = id;
              tool_name = name;
              registration_id = registration_id;
              argument_parse_error = optional_text given.argument_parse_error;
            }
                ≡ request =
              cc in
            subst IsChecked made (
              require_text-IsText given.tool_call_id id e3,
              require_text-IsText given.tool_name name e4,
              require_text-IsText given.registration_id registration_id e5,
              optional_text-IsTextOrNone given.argument_parse_error,
            )
