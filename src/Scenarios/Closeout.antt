-- ===== src/Scenarios/Closeout.antt =====
-- A plan that is done, in a workspace that was changed and never verified.
use codepilot_stable.Base.{◌≡◌, refl, ok, none, some, [], ◌∷◌, true}
use codepilot_stable.Literals.{
  RunMode, PlanStatus, PlanStepStatus, ModelObservationStatus, ModelPurpose, TerminationStatus,
}
use codepilot_stable.Plan.{PlanState}
use codepilot_stable.State.{CoreState}
use codepilot_stable.Tools.{text_block}
use codepilot_stable.Observations.{ModelObservation, model}
use codepilot_stable.Contracts.{terminate, default_limits}
use codepilot_stable.Policy.{decide}
use codepilot_stable.Policy.Tests.{PolicyContext}
use codepilot_stable.Policy.Closeout.{decide-IsDone}
use codepilot_stable.Scenarios.Data.{waiting, small_plan, read_step, no_facts, reduced_or}

abbrev done_plan : PlanState
done_plan = record (small_plan PlanStatus.active) {
  steps = record read_step { status = PlanStepStatus.completed; completion_note = "done" } ∷ [];
}

abbrev unverified : CoreState
unverified = record waiting {
  task = record waiting.task { plan = some done_plan };
  facts = record no_facts {
    workspace = record {
      revision = 1;
      changed = true;
      affected_paths = "a.py" ∷ [];
      evidence_refs = "t1" ∷ [];
    };
  };
}

abbrev last_words : ModelObservation
last_words = record {
  observation_id = "o5";
  message = some (text_block "All done" ∷ []);
  status = ModelObservationStatus.completed;
  error = none;
  purpose = ModelPurpose.reasoning;
  attempts = 1;
}

abbrev at_work : PolicyContext
at_work = record { mode = RunMode.build; limits = default_limits }

decide-IsDone_example :
    decide unverified (model last_words) at_work
    ≡ ok (terminate TerminationStatus.completed "plan.completed" "" [])
unfolding reduced_or
decide-IsDone_example =
    decide-IsDone unverified last_words at_work done_plan (refl, refl) refl (refl, refl, refl) refl
      refl refl refl
