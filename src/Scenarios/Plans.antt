-- ===== src/Scenarios/Plans.antt =====
-- Plans at work: what is made once stays as it is, and a plan that cannot be submitted again.
use codepilot_stable.Base.{◌≡◌, refl, ok, err, [], ◌∷◌, some, plan_validation_error}
use codepilot_stable.Literals.{RunMode, PlanStatus}
use codepilot_stable.Plan.{PlanDefinition, PlanStep, init_definition, init_step, init_plan}
use codepilot_stable.Plan.Validity.{
  init_definition_idem, init_step_idem, IsValid, init_plan-IsValid,
}
use codepilot_stable.Text.{collapse}
use codepilot_stable.Reducer.Commands.{reduce_command}
use codepilot_stable.Commands.{submit_plan}
use codepilot_stable.State.{CoreState}
use codepilot_stable.Scenarios.Data.{waiting, goal_definition, read_step, small_plan, reduced_or}

abbrev loose : PlanDefinition
loose = record goal_definition { summary = "  Fix   the parser " }

init_definition_idem_example : init_definition goal_definition ≡ ok goal_definition
unfolding reduced_or
init_definition_idem_example = init_definition_idem loose goal_definition refl

init_step_idem_example : init_step read_step ≡ ok read_step
unfolding reduced_or
init_step_idem_example = init_step_idem read_step read_step refl

init_plan-IsValid_example :
    IsValid (small_plan PlanStatus.active)
    × (small_plan PlanStatus.active ≡ record (small_plan PlanStatus.active) {
      plan_id = collapse (small_plan PlanStatus.active).plan_id;
    })
    × (init_plan (small_plan PlanStatus.active) ≡ ok (small_plan PlanStatus.active))
unfolding reduced_or
init_plan-IsValid_example =
    init_plan-IsValid (small_plan PlanStatus.active) (small_plan PlanStatus.active) refl

-- A proposed plan with the steps Read and Write.
abbrev write_step : PlanStep
write_step = record read_step { step_id = "plan:a:step:2"; step = "Write" }

abbrev two_steps : CoreState
two_steps = record waiting {
  task = record waiting.task {
    plan = some (record (small_plan PlanStatus.proposed) { steps = read_step ∷ write_step ∷ [] });
  };
}

abbrev full_definition : PlanDefinition
full_definition = record goal_definition {
  task_understanding = "It fails";
  current_implementation = "By hand";
  target_design = "Tables";
  impact_scope = "parser";
  risks_and_open_questions = "none" ∷ [];
  verification_plan = "pytest";
  explanation = "Simpler";
}

-- Submitted again with the steps Write and Test, the plan keeps Write under its old id, which is also
-- the id of the second step: the command raises where a rejection would be the answer.
resubmitted_raises :
    reduce_command two_steps
      (submit_plan "c5" full_definition (
        record { step = "Write"; details = "Read the parser"; verification = "Notes taken" }
        ∷ record { step = "Test"; details = "Run it"; verification = "pytest" }
        ∷ []))
      RunMode.plan
    ≡ err plan_validation_error
unfolding reduced_or
resubmitted_raises = refl
