-- ===== src/State/Types.antt =====
-- The immutable values of core/state.py. `schema_version` has one value only and is left out.
use codepilot_stable.Base.{ℕ, String, Bool, Option, List}
use codepilot_stable.Literals.{
  TaskStatus, TaskBlockerKind, VerificationFactStatus, CoreAssessmentStatus,
}
use codepilot_stable.Plan.{PlanState}

pub record TaskBlocker : Type 0 where
  pub kind : TaskBlockerKind
  pub reason : String
  pub evidence_refs : List String
  pub recoverable : Bool

pub record TaskState : Type 0 where
  pub original_request : String
  pub current_goal : String
  pub status : TaskStatus
  pub plan : Option PlanState
  pub blockers : List TaskBlocker

-- `__post_init__` turns `model_attempts=None` into a number.
pub record CoreCounters : Type 0 where
  pub model_turns : ℕ
  pub model_attempts : ℕ
  pub tool_iterations : ℕ
  pub tool_calls : ℕ
  pub total_recoveries : ℕ

pub record WorkspaceFacts : Type 0 where
  pub revision : ℕ
  pub changed : Bool
  pub affected_paths : List String
  pub evidence_refs : List String

pub record VerificationFacts : Type 0 where
  pub status : VerificationFactStatus
  pub verified_revision : Option ℕ
  pub attempted_checks : List String
  pub evidence_refs : List String
  pub unavailable_reason : Option String

pub record FailureRecord : Type 0 where
  pub code : String
  pub source : String
  pub message : String
  pub recoverable : Bool
  pub evidence_refs : List String

pub record FailureCount : Type 0 where
  pub code : String
  pub count : ℕ

pub record FailureFacts : Type 0 where
  pub latest : Option FailureRecord
  pub counts : List FailureCount

pub record LoopGuardFacts : Type 0 where
  pub last_tool_fingerprint : Option String
  pub repeated_tool_calls : ℕ
  pub repeated_no_progress : ℕ
  pub seen_tool_call_ids : List String

pub record ObservationLedger : Type 0 where
  pub applied_observation_ids : List String

pub record RunFacts : Type 0 where
  pub counters : CoreCounters
  pub workspace : WorkspaceFacts
  pub verification : VerificationFacts
  pub failures : FailureFacts
  pub loop_guards : LoopGuardFacts
  pub observation_ledger : ObservationLedger

pub record CoreAssessment : Type 0 where
  pub status : CoreAssessmentStatus
  pub reasons : List String

pub record CoreState : Type 0 where
  pub task : TaskState
  pub facts : RunFacts
