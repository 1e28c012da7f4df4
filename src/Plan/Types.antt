-- ===== src/Plan/Types.antt =====
-- The immutable values of core/plan.py. `schema_version` has one value only and is left out.
use codepilot_stable.Base.{ℕ, String, Option, List}
use codepilot_stable.Literals.{PlanOrigin, PlanStatus, PlanStepStatus, PlanRevisionReason}

pub record PlanDefinition : Type 0 where
  pub summary : String
  pub completion_criteria : List String
  pub task_understanding : String
  pub current_implementation : String
  pub target_design : String
  pub impact_scope : String
  pub risks_and_open_questions : List String
  pub verification_plan : String
  pub explanation : String

pub record PlanStepDefinition : Type 0 where
  pub step : String
  pub details : String
  pub verification : String

pub record PlanStep : Type 0 where
  pub step_id : String
  pub step : String
  pub details : String
  pub verification : String
  pub status : PlanStepStatus
  pub completion_note : String
  pub evidence_refs : List String

pub record PlanStepUpdate : Type 0 where
  pub step_id : String
  pub status : PlanStepStatus
  pub completion_note : String
  pub evidence_refs : List String

pub record PendingPlanRevision : Type 0 where
  pub reason : PlanRevisionReason
  pub definition : PlanDefinition
  pub steps : List PlanStep
  pub proposed_at_revision : ℕ

pub record PlanCloseRequest : Type 0 where
  pub summary : String
  pub evidence_refs : List String
  pub requested_at_revision : ℕ

pub record PlanState : Type 0 where
  pub plan_id : String
  pub origin : PlanOrigin
  pub status : PlanStatus
  pub revision : ℕ
  pub definition : PlanDefinition
  pub steps : List PlanStep
  pub pending_revision : Option PendingPlanRevision
  pub close_request : Option PlanCloseRequest
