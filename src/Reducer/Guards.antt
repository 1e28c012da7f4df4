-- ===== src/Reducer/Guards.antt =====
-- What the tests in front of a command refuse: a stale revision, a mode that may not change a plan.
use codepilot_stable.Base.{
  ◌≡◌, refl, ℕ, String, Bool, true, false, Option, none, some, List, [], any, all, ◌==◌, Result, ok,
  err, arith, traverse, from_keys, plan_validation_error,
}
use codepilot_stable.Literals.{RunMode}
use codepilot_stable.Plan.{PlanState, is_completed, required_text, text_tuple, init_close_request}
use codepilot_stable.State.{CoreState, plan_is_active}
use codepilot_stable.Commands.{
  CoreCommand, submit_plan, update_plan_progress, propose_plan_revision, request_plan_close,
  approve_plan, reject_plan, approve_plan_revision, reject_plan_revision, abandon_plan,
  report_verification_unavailable, command_result,
}
use codepilot_stable.Reducer.Facts.{CoreReduction}
use codepilot_stable.Reducer.Evidence.{known_evidence, normalize_evidence_refs, keep_known}
use codepilot_stable.Reducer.Replies.{
  Checked, problem, found, on_found, reject_command, plan_revision_problem, active_plan_problem,
}
use codepilot_stable.Reducer.PlanCommands.{
  reduce_submit_plan, reduce_update_progress, reduce_propose_revision, reduce_request_close,
  request_close,
}
use codepilot_stable.Reducer.Approvals.{
  reduce_approve, reduce_reject, reduce_approve_revision, reduce_reject_revision, reduce_abandon,
}
use codepilot_stable.Reducer.ToolBatch.{is_applied}
use codepilot_stable.Reducer.Commands.{reduce_command}

-- The revision that a command expects of the plan.
abbrev pub expects : CoreCommand → Option ℕ
expects (submit_plan id definition steps) = none
expects (update_plan_progress id n updates) = some n
expects (propose_plan_revision id n reason definition steps) = some n
expects (request_plan_close id n summary refs) = some n
expects (approve_plan id n) = some n
expects (reject_plan id n reason) = some n
expects (approve_plan_revision id n) = some n
expects (reject_plan_revision id n reason) = some n
expects (abandon_plan id n reason) = some n
expects (report_verification_unavailable id reason checks refs) = none

-- The plan is there and at the given revision.
abbrev pub is_at : ℕ → Option PlanState → Bool
is_at n none = false
is_at n (some plan) = plan.revision == n

-- A command that was refused: the state is as before, and its result says so.
abbrev pub Refused : CoreState → CoreReduction → Type 0
Refused s r = (r.state ≡ s) × (any is_applied r.command_results ≡ false)

reject_command-Refused :
    (s : CoreState) (c : CoreCommand) (reason : String) (r : CoreReduction)
    → reject_command s c reason ≡ ok r
    → Refused s r
unfolding reject_command command_result any
reject_command-Refused s c reason r h = ground arith

-- A test that ended in a reason to reject.
abbrev Fails : Checked → Type 0
Fails checked = (reason : String) × (checked ≡ problem reason)

revision_stale :
    (o : Option PlanState) (n : ℕ) → is_at n o ≡ false → Fails (plan_revision_problem o n)
unfolding plan_revision_problem
revision_stale none n h = ("plan.missing", refl)
revision_stale (some plan) n h = ("plan.revision_conflict", rw h refl)

active_stale :
    (s : CoreState) (n : ℕ) (mode : RunMode)
    → is_at n s.task.plan ≡ false
    → Fails (active_plan_problem s n mode)
unfolding active_plan_problem
active_stale s n RunMode.read h = ("plan.read_only", refl)
active_stale s n RunMode.plan h = ("plan.build_mode_required", refl)
active_stale s n RunMode.build h =
    let (reason, e) = revision_stale s.task.plan n h in (reason, rw e refl)

on_found-Refused :
    (s : CoreState) (c : CoreCommand) (checked : Checked) (rest : PlanState → Result CoreReduction)
    (r : CoreReduction)
    → Fails checked
    → on_found s c checked rest ≡ ok r
    → Refused s r
on_found-Refused s c checked rest r (reason, e) h = reject_command-Refused s c reason r (rw e at h)

expected_stale :
    (s : CoreState) (n m : ℕ)
    → some m ≡ some n
    → is_at n s.task.plan ≡ false
    → is_at m s.task.plan ≡ false
expected_stale s n m e h = ground arith

-- A command that expects another revision than the plan has, or a plan where there is none, is
-- refused and changes nothing.
pub reduce_command_stale :
    (s : CoreState) (c : CoreCommand) (mode : RunMode) (n : ℕ) (r : CoreReduction)
    → expects c ≡ some n
    → is_at n s.task.plan ≡ false
    → reduce_command s c mode ≡ ok r
    → Refused s r
unfolding reduce_command reduce_update_progress reduce_propose_revision reduce_request_close
    reduce_approve reduce_reject reduce_approve_revision reduce_reject_revision reduce_abandon
reduce_command_stale s (submit_plan id definition steps) mode n r e stale h = ground arith
reduce_command_stale s (update_plan_progress id m updates) mode n r e stale h =
    on_found-Refused s _ _ _ r (active_stale s m mode (expected_stale s n m e stale)) h
reduce_command_stale s (propose_plan_revision id m reason definition steps) mode n r e stale h =
    on_found-Refused s _ _ _ r (active_stale s m mode (expected_stale s n m e stale)) h
reduce_command_stale s (request_plan_close id m summary refs) mode n r e stale h =
    on_found-Refused s _ _ _ r (active_stale s m mode (expected_stale s n m e stale)) h
reduce_command_stale s (approve_plan id m) mode n r e stale h =
    on_found-Refused s _ _ _ r (revision_stale s.task.plan m (expected_stale s n m e stale)) h
reduce_command_stale s (reject_plan id m reason) mode n r e stale h =
    on_found-Refused s _ _ _ r (revision_stale s.task.plan m (expected_stale s n m e stale)) h
reduce_command_stale s (approve_plan_revision id m) mode n r e stale h =
    on_found-Refused s _ _ _ r (revision_stale s.task.plan m (expected_stale s n m e stale)) h
reduce_command_stale s (reject_plan_revision id m reason) mode n r e stale h =
    on_found-Refused s _ _ _ r (revision_stale s.task.plan m (expected_stale s n m e stale)) h
reduce_command_stale s (abandon_plan id m reason) mode n r e stale h =
    on_found-Refused s _ _ _ r (revision_stale s.task.plan m (expected_stale s n m e stale)) h
reduce_command_stale s (report_verification_unavailable id reason checks refs) mode n r e stale h =
    ground arith

-- The commands by which the model works on a plan.
abbrev pub is_model_command : CoreCommand → Bool
is_model_command (submit_plan id definition steps) = true
is_model_command (update_plan_progress id n updates) = true
is_model_command (propose_plan_revision id n reason definition steps) = true
is_model_command (request_plan_close id n summary refs) = true
is_model_command _ = false

-- In the read mode every command by which the model works on a plan is refused and changes nothing.
pub reduce_command_read_only :
    (s : CoreState) (c : CoreCommand) (r : CoreReduction)
    → is_model_command c ≡ true
    → reduce_command s c RunMode.read ≡ ok r
    → Refused s r
unfolding reduce_command reduce_submit_plan reduce_update_progress reduce_propose_revision
    reduce_request_close active_plan_problem
reduce_command_read_only s (submit_plan id definition steps) r k h =
    reject_command-Refused s _ _ r h
reduce_command_read_only s (update_plan_progress id m updates) r k h =
    reject_command-Refused s _ _ r h
reduce_command_read_only s (propose_plan_revision id m reason definition steps) r k h =
    reject_command-Refused s _ _ r h
reduce_command_read_only s (request_plan_close id m summary refs) r k h =
    reject_command-Refused s _ _ r h
reduce_command_read_only s (approve_plan id m) r k h = ground arith
reduce_command_read_only s (reject_plan id m reason) r k h = ground arith
reduce_command_read_only s (approve_plan_revision id m) r k h = ground arith
reduce_command_read_only s (reject_plan_revision id m reason) r k h = ground arith
reduce_command_read_only s (abandon_plan id m reason) r k h = ground arith
reduce_command_read_only s (report_verification_unavailable id reason checks refs) r k h =
    ground arith

active_found :
    (s : CoreState) (n : ℕ) (p : PlanState)
    → s.task.plan ≡ some p
    → p.revision ≡ n
    → plan_is_active p ≡ true
    → active_plan_problem s n RunMode.build ≡ found p
unfolding active_plan_problem
active_found s n p e1 e2 e3 = ground arith

no_evidence_err :
    (summary : String) (n : ℕ)
    → init_close_request
        (record { summary = summary; evidence_refs = []; requested_at_revision = n })
      ≡ err plan_validation_error
unfolding init_close_request required_text text_tuple traverse from_keys
no_evidence_err summary n = ground arith

-- A request to close a plan of which all steps are completed, with no reference that the state knows,
-- is not rejected: it raises the error of the close request's validation.
pub request_close_raises :
    (s : CoreState) (id : String) (n : ℕ) (summary : String) (refs : List String) (p : PlanState)
    → s.task.plan ≡ some p
    → p.revision ≡ n
    → plan_is_active p ≡ true
    → all is_completed p.steps ≡ true
    → keep_known (known_evidence s) (normalize_evidence_refs refs) ≡ []
    → reduce_request_close s id n summary refs RunMode.build ≡ err plan_validation_error
unfolding reduce_request_close request_close
request_close_raises s id n summary refs p e1 e2 e3 e4 e5 =
    rw (active_found s n p e1 e2 e3, e4, e5, no_evidence_err summary p.revision) refl
