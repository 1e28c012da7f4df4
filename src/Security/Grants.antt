-- ===== src/Security/Grants.antt =====
-- The approvals of tools/security.py: the challenge that the user is shown, and the grant that an
-- approval turns into. The clock, the ids that `uuid4` draws and the SHA-256 fingerprint of a call
-- are arguments.
use codepilot_stable.Base.{
  ℕ, String, Bool, false, not, none, some, Result, ok, ◌>>=◌, ◌>>◌, guard, traverse, value_error,
  leb, length, ltb, ◌+◌,
}
use codepilot_stable.Text.{strip, is_empty}
use codepilot_stable.Security.Types.{
  ToolExecutionRequest, ToolAccessRequest, ApprovalChallenge, ApprovalResponse, ApprovalGrant,
}
use Prim.Native.String.{◌++◌}

-- `_require_text`
unfoldable pub require_text : String → Result String
unfolding strip is_empty
require_text value = do let text = strip value; guard (not (is_empty text)) value_error; ok text

-- `ApprovalChallenge.__post_init__`
unfoldable pub init_challenge : ApprovalChallenge → Result ApprovalChallenge
unfolding require_text traverse
init_challenge c = do
  guard (ltb 0 (length c.allowed_scopes)) value_error
  approval_id ← require_text c.approval_id
  request_fingerprint ← require_text c.request_fingerprint
  run_id ← require_text c.run_id
  session_id ← require_text c.session_id
  tool_call_id ← require_text c.tool_call_id
  tool_name ← require_text c.tool_name
  registration_id ← require_text c.registration_id
  reason ← require_text c.reason
  actions ← traverse require_text c.actions
  ok (record {
    approval_id = approval_id;
    request_fingerprint = request_fingerprint;
    run_id = run_id;
    session_id = session_id;
    tool_call_id = tool_call_id;
    tool_name = tool_name;
    registration_id = registration_id;
    actions = actions;
    resources = c.resources;
    effects = c.effects;
    risk = c.risk;
    reason = reason;
    safe_preview = c.safe_preview;
    allowed_scopes = c.allowed_scopes;
    expires_at_ms = c.expires_at_ms;
  })

-- `ApprovalGrant.__post_init__`
unfoldable pub init_grant : ApprovalGrant → Result ApprovalGrant
unfolding require_text
init_grant g = do
  grant_id ← require_text g.grant_id
  approval_id ← require_text g.approval_id
  request_fingerprint ← require_text g.request_fingerprint
  ok (record {
    grant_id = grant_id;
    approval_id = approval_id;
    request_fingerprint = request_fingerprint;
    scope = g.scope;
    actions = g.actions;
    resources = g.resources;
    effects = g.effects;
    risk = g.risk;
    issued_at_ms = g.issued_at_ms;
    expires_at_ms = g.expires_at_ms;
  })

-- `ApprovalGrant.expired`, at the time `now`
unfoldable pub expired : ℕ → ApprovalGrant → Bool
expired now grant = elim grant.expires_at_ms [ none ↦ false | some at ↦ leb at now ]

-- `build_approval_challenge`; `drawn` is the random part of the id.
unfoldable pub build_approval_challenge :
    String
    → String
    → ℕ
    → ToolExecutionRequest
    → ToolAccessRequest
    → String
    → ℕ
    → Result ApprovalChallenge
unfolding init_challenge
build_approval_challenge drawn fingerprint now request access reason ttl_ms =
    init_challenge (record {
      approval_id = "approval_" ++ drawn;
      request_fingerprint = fingerprint;
      run_id = request.run_id;
      session_id = request.session_id;
      tool_call_id = request.tool_call_id;
      tool_name = request.tool_name;
      registration_id = request.registration_id;
      actions = access.actions;
      resources = access.resources;
      effects = access.effects;
      risk = access.risk;
      reason = reason;
      safe_preview = access.safe_preview;
      allowed_scopes = access.approval_scopes;
      expires_at_ms = some (now + ttl_ms);
    })

-- `issue_approval_grant`
unfoldable pub issue_approval_grant :
    String → ℕ → ApprovalChallenge → ApprovalResponse → Result ApprovalGrant
unfolding init_grant
issue_approval_grant drawn now challenge response = init_grant (record {
  grant_id = "grant_" ++ drawn;
  approval_id = challenge.approval_id;
  request_fingerprint = challenge.request_fingerprint;
  scope = response.scope;
  actions = challenge.actions;
  resources = challenge.resources;
  effects = challenge.effects;
  risk = challenge.risk;
  issued_at_ms = now;
  expires_at_ms = challenge.expires_at_ms;
})
