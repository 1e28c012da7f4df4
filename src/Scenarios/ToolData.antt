-- ===== src/Scenarios/ToolData.antt =====
-- A tool that writes a file, a runtime that has it, and an attempt that waits for an approval.
use Prim.Native.String.{◌++◌}
use codepilot_stable.Base.{String, Option, none, some, List, [], ◌∷◌, false, true, Result, ok, err}
use codepilot_stable.Security.Types.{
  ToolMode, RiskLevel, ApprovalPolicy, ToolEffectKind, PermissionEffect, RuleSource, ApprovalScope,
  ApprovalDecisionValue, Json, Fields, text, mapping, no_fields, field, pos, ToolExecutionRequest,
  ToolPolicy, ToolAccessRequest, PermissionRule, PermissionEngine, ApprovalChallenge,
  ApprovalResponse,
}
use codepilot_stable.Attempts.Types.{
  ToolAttemptState, ToolAttemptRecord, ToolStateStore, set_challenge,
}
use codepilot_stable.Attempts.Store.{empty_store}
use codepilot_stable.Attempts.Store.Final.{Write, creates, moves, write}
use codepilot_stable.ToolRuntime.Types.{returned, ToolRegistration, ToolRuntime}
use codepilot_stable.ToolRuntime.Prepare.{Moment, new_attempt}
use codepilot_stable.ToolRuntime.Resume.{Answered}

abbrev pub write_request : ToolExecutionRequest
write_request = record {
  run_id = "r1";
  session_id = "s1";
  tool_call_id = "t1";
  tool_name = "write";
  arguments = mapping (field "path" (text "a.py") no_fields);
  mode = ToolMode.execute;
  registration_id = "reg1";
  argument_parse_error = none;
}

abbrev pub write_policy : ToolPolicy
write_policy = record {
  allowed_modes = ToolMode.execute ∷ [];
  declared_effects = ToolEffectKind.filesystem_write ∷ [];
  required_permissions = "fs.write" ∷ [];
  base_risk = RiskLevel.medium;
  approval = ApprovalPolicy.on_risk;
}

abbrev pub write_access : ToolAccessRequest
write_access = record {
  actions = "write" ∷ [];
  resources = record { uri = "workspace:///a.py" } ∷ [];
  effects = ToolEffectKind.filesystem_write ∷ [];
  risk = RiskLevel.medium;
  reason = "Write a file";
  safe_preview = no_fields;
  approval_scopes = ApprovalScope.once ∷ ApprovalScope.session ∷ [];
}

abbrev pub allow_workspace : PermissionRule
allow_workspace = record {
  action_pattern = "write";
  resource_pattern = "workspace:///*";
  effect = PermissionEffect.allow;
  modes = [];
  source = RuleSource.configuration;
  priority = pos 0;
}

abbrev pub engine : List PermissionRule → PermissionEngine
engine rules = record {
  rules = rules;
  denied_effects = ToolEffectKind.credential_access ∷ [];
  approval_effects = [];
  granted_permissions = "fs.*" ∷ [];
}

abbrev pub write_tool : ToolRegistration String
write_tool = record {
  policy = write_policy;
  decode = λ arguments. returned "a.py";
  resolve = λ decoded request.
      returned (record {
        input = "/root/" ++ decoded;
        access = write_access;
        execution_timeout_ms = none;
      });
}

abbrev pub runtime : List PermissionRule → ToolRuntime String
runtime rules = record {
  registrations = ("write", record { registration_id = "reg1"; registration = write_tool }) ∷ [];
  permission_engine = engine rules;
  approval_fingerprint = λ request access. "sha256:1";
}

abbrev pub moment : Moment
moment = record { search_at_ms = 10; challenge_at_ms = 11; drawn = "x1" }

abbrev pub answered : Answered
answered = record { checked_at_ms = 20; issued_at_ms = 21; drawn = "y1" }

abbrev pub challenge : ApprovalChallenge
challenge = record {
  approval_id = "approval_x1";
  request_fingerprint = "sha256:1";
  run_id = "r1";
  session_id = "s1";
  tool_call_id = "t1";
  tool_name = "write";
  registration_id = "reg1";
  actions = "write" ∷ [];
  resources = record { uri = "workspace:///a.py" } ∷ [];
  effects = ToolEffectKind.filesystem_write ∷ [];
  risk = RiskLevel.medium;
  reason = "Write a file";
  safe_preview = no_fields;
  allowed_scopes = ApprovalScope.once ∷ ApprovalScope.session ∷ [];
  expires_at_ms = some 300011;
}

abbrev pub approval : ApprovalResponse
approval = record {
  approval_id = "approval_x1";
  request_fingerprint = "sha256:1";
  decision = ApprovalDecisionValue.approve;
  scope = ApprovalScope.session;
  reason = "";
}

abbrev pub attempt : ToolAttemptState → ToolAttemptRecord
attempt state = record (new_attempt "s1:r1:t1" write_request) { state = state }

-- The store of a write that returns. Its `unfolding` line names the code, for the tests.
unfoldable pub stored_or : ToolStateStore → Result ToolStateStore → ToolStateStore
unfolding codepilot_stable.Base.any codepilot_stable.Base.all codepilot_stable.Base.filter
    codepilot_stable.Base.count codepilot_stable.Base.contains codepilot_stable.Base.from_keys
    codepilot_stable.Base.dict_get codepilot_stable.Base.dict_set codepilot_stable.Base.traverse
    codepilot_stable.Base.Sorting.text_le codepilot_stable.Base.Sorting.insert_by
    codepilot_stable.Base.Sorting.sort_by codepilot_stable.Text.is_space
    codepilot_stable.Text.is_empty codepilot_stable.Text.lstrip codepilot_stable.Text.rstrip
    codepilot_stable.Text.strip codepilot_stable.Text.push_word codepilot_stable.Text.span_words
    codepilot_stable.Text.split codepilot_stable.Text.join codepilot_stable.Text.collapse
    codepilot_stable.Text.Glob.codes codepilot_stable.Text.Glob.until_close
    codepilot_stable.Text.Glob.members codepilot_stable.Text.Glob.class_body
    codepilot_stable.Text.Glob.ranges codepilot_stable.Text.Glob.class_token
    codepilot_stable.Text.Glob.tokens codepilot_stable.Text.Glob.in_ranges
    codepilot_stable.Text.Glob.accepts codepilot_stable.Text.Glob.match
    codepilot_stable.Text.Glob.fnmatchcase codepilot_stable.Security.Types.has_mode
    codepilot_stable.Security.Types.has_effect codepilot_stable.Security.Types.effects_within
    codepilot_stable.Security.Types.effects_meet codepilot_stable.Security.Permissions.is_high_risk
    codepilot_stable.Security.Permissions.is_granted
    codepilot_stable.Security.Permissions.missing_permissions
    codepilot_stable.Security.Permissions.contains_forbidden_auth
    codepilot_stable.Security.Rules.pattern_specificity codepilot_stable.Security.Rules.specificity
    codepilot_stable.Security.Rules.ranks_below codepilot_stable.Security.Rules.highest
    codepilot_stable.Security.Rules.rule_matches codepilot_stable.Security.Rules.best_rule
    codepilot_stable.Security.Rules.pairs codepilot_stable.Security.Rules.resource_uris
    codepilot_stable.Security.Rules.select_rules codepilot_stable.Security.Rules.with_effect
    codepilot_stable.Security.Rules.strictest codepilot_stable.Security.Rules.matched_rule
    codepilot_stable.Security.Engine.decide_by_policy
    codepilot_stable.Security.Engine.decide_by_rules
    codepilot_stable.Security.Engine.decide_by_effects codepilot_stable.Security.Engine.decide
    codepilot_stable.Security.Grants.require_text codepilot_stable.Security.Grants.init_challenge
    codepilot_stable.Security.Grants.init_grant codepilot_stable.Security.Grants.expired
    codepilot_stable.Security.Grants.build_approval_challenge
    codepilot_stable.Security.Grants.issue_approval_grant
    codepilot_stable.Attempts.Transitions.next_states
    codepilot_stable.Attempts.Transitions.may_become
    codepilot_stable.Attempts.Transitions.apply_change
    codepilot_stable.Attempts.Transitions.apply_changes
    codepilot_stable.Attempts.Transitions.transition
    codepilot_stable.Attempts.Transitions.attempt_id_for codepilot_stable.Attempts.Store.index
    codepilot_stable.Attempts.Store.put codepilot_stable.Attempts.Store.get
    codepilot_stable.Attempts.Store.create codepilot_stable.Attempts.Store.compare_and_set
    codepilot_stable.Attempts.Store.find_by_approval_id
    codepilot_stable.Attempts.Store.find_by_interaction_id
    codepilot_stable.Attempts.Store.waiting_challenges
    codepilot_stable.Attempts.Store.pending_challenges codepilot_stable.Attempts.Store.same_texts
    codepilot_stable.Attempts.Store.is_reusable codepilot_stable.Attempts.Store.newest_grant
    codepilot_stable.Attempts.Store.find_reusable_grant codepilot_stable.Tools.require_text
    codepilot_stable.Tools.new_tool_error codepilot_stable.Tools.init_result
    codepilot_stable.ToolRuntime.Types.failure codepilot_stable.ToolRuntime.Types.approval_result
    codepilot_stable.ToolRuntime.Types.settle_made
    codepilot_stable.ToolRuntime.Resume.unknown_approval
    codepilot_stable.ToolRuntime.Types.message_or codepilot_stable.ToolRuntime.Types.move
    codepilot_stable.ToolRuntime.Types.settle codepilot_stable.ToolRuntime.Registry.materialize
    codepilot_stable.ToolRuntime.Prepare.queue_call codepilot_stable.ToolRuntime.Prepare.ask_user
    codepilot_stable.ToolRuntime.Prepare.admit codepilot_stable.ToolRuntime.Prepare.resolve_access
    codepilot_stable.ToolRuntime.Prepare.decode_input codepilot_stable.ToolRuntime.Prepare.validate
    codepilot_stable.ToolRuntime.Prepare.prepare codepilot_stable.ToolRuntime.Resume.has_scope
    codepilot_stable.ToolRuntime.Resume.challenge_expired codepilot_stable.ToolRuntime.Resume.deny
    codepilot_stable.ToolRuntime.Resume.take_up codepilot_stable.ToolRuntime.Resume.resolve_again
    codepilot_stable.ToolRuntime.Resume.issue_and_queue
    codepilot_stable.ToolRuntime.Resume.revalidate codepilot_stable.ToolRuntime.Resume.approve
    codepilot_stable.ToolRuntime.Resume.answer codepilot_stable.ToolRuntime.Resume.resume_approval
    codepilot_stable.Attempts.Store.Final.write
stored_or store (ok after) = after
stored_or store (err error) = store

unfoldable pub created : ToolStateStore
unfolding stored_or
created = stored_or empty_store (write (creates (attempt ToolAttemptState.received)) empty_store)

abbrev pub validating_write : Write
validating_write = moves (attempt ToolAttemptState.received) ToolAttemptState.validating []

unfoldable pub validated : ToolStateStore
unfolding stored_or created
validated = stored_or created (write validating_write created)

abbrev pub resolving_write : Write
resolving_write = moves (attempt ToolAttemptState.validating) ToolAttemptState.resolving_access []

unfoldable pub resolved : ToolStateStore
unfolding stored_or validated
resolved = stored_or validated (write resolving_write validated)

abbrev pub asking_write : Write
asking_write =
    moves (attempt ToolAttemptState.resolving_access) ToolAttemptState.awaiting_approval
      (set_challenge challenge ∷ [])

-- the attempt waits for an approval
unfoldable pub asked : ToolStateStore
unfolding stored_or resolved
asked = stored_or resolved (write asking_write resolved)
