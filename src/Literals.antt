-- ===== src/Literals.antt =====
-- The closed sets of words that the Core declares as `Literal[...]` types: in core/plan.py,
-- core/state.py, core/contracts.py, core/observations.py and core/commands.py, and the statuses and
-- kinds of tools/results.py and tools/contracts.py that the Core tests.

pub data RunMode : Type 0 where
  read plan build : RunMode

pub data PlanOrigin : Type 0 where
  plan_mode build_mode : PlanOrigin

pub data PlanStatus : Type 0 where
  proposed active completed rejected abandoned : PlanStatus

pub data PlanStepStatus : Type 0 where
  pending in_progress completed : PlanStepStatus

pub data PlanRevisionReason : Type 0 where
  user_request repeated_execution_failure new_evidence : PlanRevisionReason

pub data TaskStatus : Type 0 where
  active blocked satisfied abandoned : TaskStatus

pub data TaskBlockerKind : Type 0 where
  user_input_required tool_unavailable verification_failed plan_incomplete replan_required :
      TaskBlockerKind

pub data VerificationFactStatus : Type 0 where
  none unknown passed failed stale unavailable : VerificationFactStatus

pub data CommandStatus : Type 0 where
  applied rejected : CommandStatus

pub data ToolStatus : Type 0 where
  success error denied approval_required user_input_required cancelled timed_out interrupted :
      ToolStatus

pub data ToolErrorKind : Type 0 where
  registration validation unavailable permission approval interaction queue_timeout
        execution_timeout cancelled interrupted execution output_validation policy_violation
        resource_cleanup stale_registration internal :
      ToolErrorKind

pub data ModelObservationStatus : Type 0 where
  completed failed : ModelObservationStatus

pub data ModelPurpose : Type 0 where
  reasoning recovery verification replan plan_closeout final_response : ModelPurpose

pub data CoreWaitKind : Type 0 where
  tool_approval user_input plan_confirmation continuation : CoreWaitKind

pub data TerminationStatus : Type 0 where
  completed failed cancelled : TerminationStatus

pub data CoreAssessmentStatus : Type 0 where
  active blocked needs_verification needs_replan ready_to_finish satisfied : CoreAssessmentStatus
