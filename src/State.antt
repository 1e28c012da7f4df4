-- ===== src/State.antt =====
-- core/state.py: the checks that every state value passes when it is made (`init_x` is
-- `__post_init__` of the class `X`), the first state, and the assessment of a state.
mod Types
pub mod Texts
pub use Types.*
use codepilot_stable.Base.{
  ℕ, String, Bool, true, false, ◌&&◌, ◌||◌, not, Option, none, some, List, [], ◌∷◌, map, length,
  any, all, from_keys, str_eq, ltb, ◌==◌, if◌then◌else◌, Error, value_error, Result, ok, err, ◌>>=◌,
  ◌>>◌, guard, traverse,
}
use codepilot_stable.Base.Sorting.{sort_by}
use codepilot_stable.Literals.{
  TaskStatus, TaskBlockerKind, PlanStatus, VerificationFactStatus, CoreAssessmentStatus,
  user_input_required, tool_unavailable, verification_failed, plan_incomplete, replan_required,
}
use codepilot_stable.Text.{is_empty, strip}
use codepilot_stable.Plan.{PlanState, is_completed}

-- `a == b` on blocker kinds
abbrev pub kind_index : TaskBlockerKind → ℕ
kind_index TaskBlockerKind.user_input_required = 0
kind_index TaskBlockerKind.tool_unavailable = 1
kind_index TaskBlockerKind.verification_failed = 2
kind_index TaskBlockerKind.plan_incomplete = 3
kind_index TaskBlockerKind.replan_required = 4

abbrev pub kind_eq : TaskBlockerKind → TaskBlockerKind → Bool
kind_eq a b = kind_index a == kind_index b

abbrev pub has_blocker : TaskBlockerKind → List TaskBlocker → Bool
has_blocker kind blockers = any (λ item. kind_eq item.kind kind) blockers

-- `_optional_text`
unfoldable pub optional_text : String → Option String
optional_text value = let text = strip value in if is_empty text then none else some text

-- `_required_core_text`
unfoldable pub required_core_text : String → Result String
unfolding optional_text
required_core_text value = elim (optional_text value) [
  | none ↦ err value_error
  | some text ↦ ok text
]

-- `_text_tuple`
unfoldable pub text_tuple : List String → Result (List String)
text_tuple values = do texts ← traverse required_core_text values; ok (from_keys texts)

-- `_optional_text` on a value that may be `None`
abbrev pub optional_text_of : Option String → Option String
optional_text_of none = none
optional_text_of (some value) = optional_text value

unfoldable pub init_blocker : TaskBlocker → Result TaskBlocker
init_blocker b = do
  reason ← required_core_text b.reason
  refs ← text_tuple b.evidence_refs
  ok (record b { reason = reason; evidence_refs = refs })

unfoldable pub init_task : TaskState → Result TaskState
init_task t = do
  request ← required_core_text t.original_request
  goal ← required_core_text t.current_goal
  ok (record t { original_request = request; current_goal = goal })

-- `tuple(sorted(set(texts)))`
unfoldable pub init_workspace : WorkspaceFacts → Result WorkspaceFacts
init_workspace w = do
  paths ← text_tuple w.affected_paths
  refs ← text_tuple w.evidence_refs
  ok (record w { affected_paths = sort_by (λ path. path) paths; evidence_refs = refs })

abbrev pub is_unavailable : VerificationFactStatus → Bool
is_unavailable VerificationFactStatus.unavailable = true
is_unavailable _ = false

abbrev pub is_none {ℓ} : {A : Type ℓ} → Option A → Bool
is_none none = true
is_none (some a) = false

unfoldable pub init_verification : VerificationFacts → Result VerificationFacts
init_verification v = do
  checks ← text_tuple v.attempted_checks
  refs ← text_tuple v.evidence_refs
  let reason = optional_text_of v.unavailable_reason
  guard (not (is_unavailable v.status && is_none reason)) value_error
  ok (record v { attempted_checks = checks; evidence_refs = refs; unavailable_reason = reason })

unfoldable pub init_failure : FailureRecord → Result FailureRecord
init_failure f = do
  code ← required_core_text f.code
  source ← required_core_text f.source
  message ← required_core_text f.message
  refs ← text_tuple f.evidence_refs
  ok (record f { code = code; source = source; message = message; evidence_refs = refs })

unfoldable pub init_failure_count : FailureCount → Result FailureCount
init_failure_count c = do
  code ← required_core_text c.code
  guard (ltb 0 c.count) value_error
  ok (record c { code = code })

abbrev pub codes : List FailureCount → List String
codes counts = map (λ item. item.code) counts

unfoldable pub init_failures : FailureFacts → Result FailureFacts
init_failures f = do
  guard (length (from_keys (codes f.counts)) == length f.counts) value_error
  ok (record f { counts = sort_by (λ item. item.code) f.counts })

-- `FailureFacts.count_for`
unfoldable pub count_in : List FailureCount → String → ℕ
count_in [] code = 0
count_in (item ∷ counts) code =
    let rest = count_in counts code in if str_eq item.code code then item.count else rest

abbrev pub count_for : FailureFacts → String → ℕ
count_for f code = count_in f.counts code

unfoldable pub init_loop_guards : LoopGuardFacts → Result LoopGuardFacts
init_loop_guards g = do
  seen ← text_tuple g.seen_tool_call_ids
  ok (record g {
    last_tool_fingerprint = optional_text_of g.last_tool_fingerprint;
    seen_tool_call_ids = seen;
  })

unfoldable pub init_ledger : ObservationLedger → Result ObservationLedger
init_ledger l = do
  ids ← text_tuple l.applied_observation_ids
  ok (record { applied_observation_ids = ids })

-- the default values of the facts' fields
abbrev pub no_failures : FailureFacts
no_failures = record { latest = none; counts = [] }

abbrev pub new_facts : RunFacts
new_facts = record {
  counters = record {
    model_turns = 0;
    model_attempts = 0;
    tool_iterations = 0;
    tool_calls = 0;
    total_recoveries = 0;
  };
  workspace = record { revision = 0; changed = false; affected_paths = []; evidence_refs = [] };
  verification = record {
    status = VerificationFactStatus.none;
    verified_revision = none;
    attempted_checks = [];
    evidence_refs = [];
    unavailable_reason = none;
  };
  failures = no_failures;
  loop_guards = record {
    last_tool_fingerprint = none;
    repeated_tool_calls = 0;
    repeated_no_progress = 0;
    seen_tool_call_ids = [];
  };
  observation_ledger = record { applied_observation_ids = [] };
}

-- `text or other`, for a text that is not empty where it is there
abbrev or_else : Option String → String → String
or_else none other = other
or_else (some text) other = text

-- `CoreState.new`
unfoldable pub new_state : String → Option String → Result CoreState
new_state original_request current_goal = do
  request ← required_core_text original_request
  let goal = or_else (optional_text_of current_goal) request
  task ← init_task (record {
    original_request = request;
    current_goal = goal;
    status = TaskStatus.active;
    plan = none;
    blockers = [];
  })
  ok (record { task = task; facts = new_facts })

-- `verification.status in {"passed", "unavailable"}`
abbrev pub is_settled : VerificationFactStatus → Bool
is_settled VerificationFactStatus.passed = true
is_settled VerificationFactStatus.unavailable = true
is_settled _ = false

-- `verification.verified_revision == revision`
abbrev pub revision_is : Option ℕ → ℕ → Bool
revision_is none revision = false
revision_is (some verified) revision = verified == revision

abbrev pub plan_is_active : PlanState → Bool
plan_is_active p = elim p.status [ PlanStatus.active ↦ true | _ ↦ false ]

abbrev assess : CoreAssessmentStatus → List String → CoreAssessment
assess status reasons = record { status = status; reasons = reasons }

-- the last test of `assess_core_state`, on the plan
unfoldable pub assess_plan : Option PlanState → CoreAssessment
assess_plan none = assess CoreAssessmentStatus.active []
assess_plan (some plan) =
    if plan_is_active plan && not (is_none plan.close_request) && all is_completed plan.steps
    then assess CoreAssessmentStatus.ready_to_finish []
    else assess CoreAssessmentStatus.active []

-- what `assess_core_state` does for a task that is active
unfoldable pub assess_active : CoreState → CoreAssessment
unfolding assess_plan
assess_active s =
    if has_blocker replan_required s.task.blockers
    then assess CoreAssessmentStatus.needs_replan ("replan_required" ∷ [])
    else if s.facts.workspace.changed
        && not (
            is_settled s.facts.verification.status
            && revision_is s.facts.verification.verified_revision s.facts.workspace.revision)
    then assess CoreAssessmentStatus.needs_verification ("verification_not_fresh" ∷ [])
    else assess_plan s.task.plan

unfoldable pub assess_core_state : CoreState → CoreAssessment
unfolding assess_active
assess_core_state s = elim s.task.status [
  | TaskStatus.satisfied ↦ assess CoreAssessmentStatus.satisfied []
  | TaskStatus.blocked ↦ assess CoreAssessmentStatus.blocked ("task_blocked" ∷ [])
  | TaskStatus.abandoned ↦ assess CoreAssessmentStatus.blocked ("task_abandoned" ∷ [])
  | TaskStatus.active ↦ assess_active s
]
