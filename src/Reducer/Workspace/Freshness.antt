-- ===== src/Reducer/Workspace/Freshness.antt =====
-- After a change of the workspace, what a verification says of it.
use codepilot_stable.Base.{
  ◌≡◌, refl, sym, ap, ◌∙◌, ℕ, ◌+◌, String, Bool, true, false, ◌||◌, Option, none, some, List, [],
  ◌∷◌, any, ok, arith, on_ok, Bool-cases, inl, inr, ◌⊎◌, if◌then◌else◌,
}
use codepilot_stable.Literals.{VerificationFactStatus}
use codepilot_stable.State.{VerificationFacts, WorkspaceFacts, init_verification, init_workspace}
use codepilot_stable.Tools.{
  Value, VerificationData, ToolResult, equals_number, workspace_effect_summary,
}
use codepilot_stable.Reducer.Workspace.{
  Collected, collect, reduce_workspace, age_verification, reported_status, dated_status,
  checked_revision, report_facts, reduce_reports, reduce_verification,
}

-- A report that names the given revision of the workspace.
abbrev pub report_names : ℕ → Option VerificationData → Bool
report_names revision none = false
report_names revision (some d) = equals_number d.verified_revision revision

abbrev pub names_revision : ℕ → ToolResult → Bool
names_revision revision result = report_names revision result.verification

abbrev pub is_passed : VerificationFactStatus → Bool
is_passed VerificationFactStatus.passed = true
is_passed _ = false

status-init_verification :
    (v w : VerificationFacts) → init_verification v ≡ ok w → w.status ≡ v.status
unfolding init_verification
status-init_verification v w h = ground arith

dated_passed :
    (status : VerificationFactStatus) (explicit : Value) (revision : ℕ)
    → is_passed (dated_status status explicit revision true).0 ≡ true
    → equals_number explicit revision ≡ true
unfolding dated_status
dated_passed status explicit revision h = ground arith

report_passed :
    (id : String) (d : VerificationData) (revision : ℕ) (v : VerificationFacts)
    → report_facts id d revision true ≡ ok v
    → is_passed v.status ≡ true
    → equals_number d.verified_revision revision ≡ true
unfolding report_facts
report_passed id d revision v h k =
    let dated = dated_status (reported_status d) d.verified_revision revision true in
    on_ok (checked_revision dated.1) _ h λ verified e h1.
      dated_passed (reported_status d) d.verified_revision revision
        (sym (ap is_passed (status-init_verification _ v h1)) ∙ k)

age_passed : (v w : VerificationFacts) → age_verification v true ≡ ok w → is_passed w.status ≡ false
unfolding age_verification init_verification
age_passed v w h = ground arith

reports_next :
    (facts v : VerificationFacts) (result : ToolResult) (results : List ToolResult) (revision : ℕ)
    → ((w : VerificationFacts)
        → is_passed w.status ≡ false
        → reduce_reports w results revision true ≡ ok v
        → any (names_revision revision) results ≡ true)
    → (o : Option VerificationData) → result.verification ≡ o
    → is_passed facts.status ≡ false
    → reduce_reports facts (result ∷ results) revision true ≡ ok v
    → (report_names revision o ≡ true) ⊎ (any (names_revision revision) results ≡ true)
unfolding reduce_reports any
reports_next facts v result results revision ih none e f h =
    inr (ih facts f (rw (e, reduce_reports) at h))
reports_next facts v result results revision ih (some d) e f h =
    on_ok (report_facts result.tool_call_id d revision true) _ (rw (e, reduce_reports) at h)
      λ w e1 h1. elim (Bool-cases (is_passed w.status)) [
        | inl fresh ↦ inl (report_passed result.tool_call_id d revision w e1 fresh)
        | inr old ↦ inr (ih w old h1)
      ]

reports_passed :
    (facts v : VerificationFacts) (results : List ToolResult) (revision : ℕ)
    → is_passed facts.status ≡ false
    → reduce_reports facts results revision true ≡ ok v
    → is_passed v.status ≡ true
    → any (names_revision revision) results ≡ true
unfolding reduce_reports any
reports_passed facts v [] revision f h k = ground arith
reports_passed facts v (result ∷ results) revision f h k =
    let found =
      reports_next facts v result results revision
        (λ w f' h'. reports_passed w v results revision f' h' k) result.verification refl f h in
    ground arith

-- After a batch that changed the workspace, the verification counts as passed only if some result of
-- the batch reported on the workspace by its new revision.
pub reduce_verification_passed :
    (current v : VerificationFacts) (results : List ToolResult) (revision : ℕ)
    → reduce_verification current results revision true ≡ ok v
    → v.status ≡ VerificationFactStatus.passed
    → any (names_revision revision) results ≡ true
unfolding reduce_verification
reduce_verification_passed current v results revision h k =
    on_ok (age_verification current true) _ h λ aged e h1.
      reports_passed aged v results revision (age_passed current aged e) h1 (ap is_passed k)

-- A result that changed a file of the workspace.
abbrev pub changed_by : ToolResult → Bool
changed_by result = (workspace_effect_summary result.effects).1

or_next : (r c b : Bool) → ((if r then true else c) || b) ≡ (c || (r || b))
or_next true c b = ground arith
or_next false c b = refl

collect_changed :
    (results : List ToolResult) (c : Collected)
    → (collect c results).changed ≡ (c.changed || any changed_by results)
unfolding collect any
collect_changed [] c = ground arith
collect_changed (result ∷ results) c =
    collect_changed results _
    ∙ or_next (workspace_effect_summary result.effects).1 c.changed (any changed_by results)

-- A batch moves the workspace one revision on exactly if one of its results changed a file, and it
-- says so; otherwise it leaves the facts on the workspace as they are.
pub reduce_workspace_revision :
    (current w : WorkspaceFacts) (results : List ToolResult) (changed : Bool)
    → reduce_workspace current results ≡ ok (w, changed)
    → (changed ≡ any changed_by results)
      × ((changed ≡ true) × (w.revision ≡ current.revision + 1) × (w.changed ≡ true)
          ⊎ (changed ≡ false) × (w ≡ current))
unfolding reduce_workspace init_workspace
reduce_workspace_revision current w results changed h =
    let start : Collected = record {
      paths = current.affected_paths;
      evidence = current.evidence_refs;
      changed = false;
    } in
    let e = collect_changed results start in ground arith
