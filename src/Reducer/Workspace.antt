-- ===== src/Reducer/Workspace.antt =====
-- core/reducer.py: what a batch of tool results says of the workspace and of verification.
pub mod Freshness
use mathlib.Core.List.{◌++◌}
use codepilot_stable.Base.{
  ℕ, ◌+◌, String, Bool, true, false, ◌&&◌, not, Option, none, some, List, [], ◌∷◌, map, from_keys,
  if◌then◌else◌, str_eq, ◌==◌, Error, value_error, Result, ok, err, ◌>>=◌,
}
use codepilot_stable.Literals.{VerificationFactStatus}
use codepilot_stable.Text.{is_empty, strip}
use codepilot_stable.Text.Prefix.{remove_prefix, lower_is}
use codepilot_stable.State.{WorkspaceFacts, VerificationFacts, init_workspace, init_verification}
use codepilot_stable.Tools.{
  Value, absent, flag, number, negative, text, other, str_or, equals_number, VerificationData,
  ToolResult, workspace_effect_summary,
}

-- `uri.removeprefix("workspace:///") or "."`
unfoldable pub workspace_path : String → String
workspace_path uri =
    let path = remove_prefix "workspace:///" uri in if is_empty path then "." else path

-- what the loop of `_reduce_workspace` has collected
pub record Collected : Type 0 where
  pub paths : List String
  pub evidence : List String
  pub changed : Bool

-- the loop of `_reduce_workspace`
unfoldable pub collect : Collected → List ToolResult → Collected
unfolding workspace_path
collect c [] = c
collect c (result ∷ results) =
    let (uris, result_changed) = workspace_effect_summary result.effects in
    collect
      (record {
        paths = c.paths ++ map workspace_path uris;
        evidence = (if result_changed then c.evidence ++ result.tool_call_id ∷ [] else c.evidence);
        changed = (if result_changed then true else c.changed);
      })
      results

-- `_reduce_workspace`: the paths are a set, which `init_workspace` sorts.
unfoldable pub reduce_workspace : WorkspaceFacts → List ToolResult → Result (WorkspaceFacts × Bool)
unfolding collect
reduce_workspace current results =
    let c =
      collect
        (record {
          paths = current.affected_paths;
          evidence = current.evidence_refs;
          changed = false;
        })
        results in
    if not c.changed then ok (current, false) else do
      workspace ← init_workspace (record {
        revision = current.revision + 1;
        changed = true;
        affected_paths = c.paths;
        evidence_refs = c.evidence;
      })
      ok (workspace, true)

-- `current.status not in {"none", "unknown"}`
abbrev pub is_known : VerificationFactStatus → Bool
is_known VerificationFactStatus.none = false
is_known VerificationFactStatus.unknown = false
is_known _ = true

-- the facts at the start of `_reduce_verification`: stale after a change
unfoldable pub age_verification : VerificationFacts → Bool → Result VerificationFacts
age_verification current workspace_changed =
    if workspace_changed && is_known current.status
    then init_verification
        (record current { status = VerificationFactStatus.stale; verified_revision = none })
    else ok current

-- `raw_status if raw_status in {"passed", "failed", "unknown"} else "unknown"`
unfoldable pub reported_status : VerificationData → VerificationFactStatus
reported_status d =
    let raw = strip (str_or d.status "unknown") in
    if lower_is "passed" raw
    then VerificationFactStatus.passed
    else if lower_is "failed" raw
    then VerificationFactStatus.failed
    else VerificationFactStatus.unknown

-- `explicit_revision if isinstance(explicit_revision, int) and not isinstance(..., bool)`
abbrev pub explicit_or : Value → ℕ → Value
explicit_or (number n) revision = number n
explicit_or (negative n) revision = negative n
explicit_or _ revision = number revision

-- The status and the revision of a report. After a change a report that does not name the new
-- revision says nothing of it.
unfoldable pub dated_status :
    VerificationFactStatus → Value → ℕ → Bool → VerificationFactStatus × Value
dated_status VerificationFactStatus.passed explicit revision workspace_changed =
    if workspace_changed && not (equals_number explicit revision)
    then (VerificationFactStatus.stale, absent)
    else (VerificationFactStatus.passed, explicit_or explicit revision)
dated_status VerificationFactStatus.failed explicit revision workspace_changed =
    if workspace_changed && not (equals_number explicit revision)
    then (VerificationFactStatus.failed, absent)
    else (VerificationFactStatus.failed, explicit_or explicit revision)
dated_status status explicit revision workspace_changed = (status, explicit_or explicit revision)

-- The test of `verified_revision` in `VerificationFacts.__post_init__`.
unfoldable pub checked_revision : Value → Result (Option ℕ)
checked_revision (number n) = ok (some n)
checked_revision (negative n) = err value_error
checked_revision _ = ok none

-- the facts that one report gives
unfoldable pub report_facts : String → VerificationData → ℕ → Bool → Result VerificationFacts
unfolding reported_status dated_status checked_revision
report_facts call_id d revision workspace_changed = do
  let (status, dated) =
      dated_status (reported_status d) d.verified_revision revision workspace_changed
  verified ← checked_revision dated
  let command = strip (str_or d.command "")
  init_verification (record {
    status = status;
    verified_revision = verified;
    attempted_checks = (if is_empty command then [] else command ∷ []);
    evidence_refs = call_id ∷ [];
    unavailable_reason = none;
  })

-- the loop of `_reduce_verification`
unfoldable pub reduce_reports :
    VerificationFacts → List ToolResult → ℕ → Bool → Result VerificationFacts
unfolding report_facts
reduce_reports facts [] revision workspace_changed = ok facts
reduce_reports facts (result ∷ results) revision workspace_changed = elim result.verification [
  | none ↦ reduce_reports facts results revision workspace_changed
  | some d ↦ do
    next ← report_facts result.tool_call_id d revision workspace_changed
    reduce_reports next results revision workspace_changed
]

-- `_reduce_verification`
unfoldable pub reduce_verification :
    VerificationFacts → List ToolResult → ℕ → Bool → Result VerificationFacts
unfolding age_verification reduce_reports
reduce_verification current results revision workspace_changed = do
  aged ← age_verification current workspace_changed
  reduce_reports aged results revision workspace_changed

-- `a == b` on verification facts
abbrev pub status_index : VerificationFactStatus → ℕ
status_index VerificationFactStatus.none = 0
status_index VerificationFactStatus.unknown = 1
status_index VerificationFactStatus.passed = 2
status_index VerificationFactStatus.failed = 3
status_index VerificationFactStatus.stale = 4
status_index VerificationFactStatus.unavailable = 5

abbrev pub option_eq {ℓ} : {A : Type ℓ} → (A → A → Bool) → Option A → Option A → Bool
option_eq eq none none = true
option_eq eq (some a) (some b) = eq a b
option_eq eq _ _ = false

unfoldable pub texts_eq : List String → List String → Bool
texts_eq [] [] = true
texts_eq (x ∷ xs) (y ∷ ys) = str_eq x y && texts_eq xs ys
texts_eq _ _ = false

unfoldable pub verification_eq : VerificationFacts → VerificationFacts → Bool
unfolding texts_eq
verification_eq a b =
    status_index a.status == status_index b.status
    && option_eq ◌==◌ a.verified_revision b.verified_revision
    && texts_eq a.attempted_checks b.attempted_checks
    && texts_eq a.evidence_refs b.evidence_refs
    && option_eq str_eq a.unavailable_reason b.unavailable_reason
