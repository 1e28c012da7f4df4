-- ===== src/Scenarios/Batches.antt =====
-- Batches of tool results and revised steps at work.
use codepilot_stable.Base.{
  ◌≡◌, refl, ok, err, [], ◌∷◌, List, Bool, true, false, any, map, from_keys, ◌+◌, ◌⊎◌, Result,
}
use codepilot_stable.Literals.{tool_unavailable}
use codepilot_stable.State.{
  CoreState, TaskBlocker, WorkspaceFacts, VerificationFacts, FailureCount, count_in,
}
use codepilot_stable.Reducer.Facts.{without, put_blocker, remove_blocker, bump}
use codepilot_stable.Reducer.Facts.Blockers.{
  of_kind, put_blocker_one, remove_blocker_none, count_in-bump,
}
use codepilot_stable.Reducer.Steps.{preserve_matching_steps}
use codepilot_stable.Reducer.Steps.Kept.{definition_of, preserve_matching_steps_definitions}
use codepilot_stable.Reducer.ToolBatch.{unique_results, call_ids}
use codepilot_stable.Reducer.ToolBatch.Unique.{find_call, unique_results_once}
use codepilot_stable.Reducer.Workspace.{reduce_workspace, reduce_verification}
use codepilot_stable.Reducer.Workspace.Freshness.{
  changed_by, names_revision, reduce_workspace_revision, reduce_verification_passed,
}
use codepilot_stable.Scenarios.Data.{waiting, read_step, wrote, tested, no_facts, reduced_or}

abbrev workspace_or : Result (WorkspaceFacts × Bool) → WorkspaceFacts × Bool
workspace_or (ok facts) = facts
workspace_or (err error) = (no_facts.workspace, false)

abbrev changed : WorkspaceFacts × Bool
unfolding reduced_or
changed = workspace_or (reduce_workspace no_facts.workspace (wrote ∷ tested ∷ []))

reduce_workspace_revision_example :
    (changed.1 ≡ any changed_by (wrote ∷ tested ∷ []))
    × ((changed.1 ≡ true) × (changed.0.revision ≡ 0 + 1) × (changed.0.changed ≡ true)
        ⊎ (changed.1 ≡ false) × (changed.0 ≡ no_facts.workspace))
unfolding reduced_or changed
reduce_workspace_revision_example =
    reduce_workspace_revision no_facts.workspace changed.0 (wrote ∷ tested ∷ []) changed.1 refl

abbrev facts_or : Result VerificationFacts → VerificationFacts
facts_or (ok facts) = facts
facts_or (err error) = no_facts.verification

abbrev verified : VerificationFacts
unfolding reduced_or
verified = facts_or (reduce_verification no_facts.verification (wrote ∷ tested ∷ []) 1 true)

reduce_verification_passed_example : any (names_revision 1) (wrote ∷ tested ∷ []) ≡ true
unfolding reduced_or verified
reduce_verification_passed_example =
    reduce_verification_passed no_facts.verification verified (wrote ∷ tested ∷ []) 1 refl refl

unique_results_once_example :
    (call_ids (unique_results [] (wrote ∷ tested ∷ wrote ∷ []))
      ≡ from_keys (call_ids (wrote ∷ tested ∷ wrote ∷ [])))
    × (find_call "t1" (unique_results [] (wrote ∷ tested ∷ wrote ∷ []))
        ≡ find_call "t1" (wrote ∷ tested ∷ wrote ∷ []))
unique_results_once_example = unique_results_once (wrote ∷ tested ∷ wrote ∷ []) "t1"

preserve_matching_steps_definitions_example :
    map definition_of (preserve_matching_steps (read_step ∷ []) (read_step ∷ []))
    ≡ map definition_of (read_step ∷ [])
preserve_matching_steps_definitions_example =
    preserve_matching_steps_definitions (read_step ∷ []) (read_step ∷ [])

abbrev missing_tool : TaskBlocker
missing_tool = record {
  kind = tool_unavailable;
  reason = "no such tool";
  evidence_refs = "t1" ∷ [];
  recoverable = true;
}

abbrev state_or : CoreState → Result CoreState → CoreState
state_or s (ok t) = t
state_or s (err error) = s

abbrev blocked : CoreState
unfolding reduced_or
blocked = state_or waiting (put_blocker waiting missing_tool)

put_blocker_one_example :
    (of_kind tool_unavailable blocked.task.blockers ≡ missing_tool ∷ [])
    × (without tool_unavailable blocked.task.blockers
        ≡ without tool_unavailable waiting.task.blockers)
unfolding reduced_or blocked
put_blocker_one_example = put_blocker_one waiting blocked missing_tool refl

abbrev cleared : CoreState
unfolding reduced_or blocked
cleared = state_or waiting (remove_blocker blocked tool_unavailable)

remove_blocker_none_example :
    (of_kind tool_unavailable cleared.task.blockers ≡ [])
    × (without tool_unavailable cleared.task.blockers
        ≡ without tool_unavailable blocked.task.blockers)
unfolding reduced_or cleared
remove_blocker_none_example = remove_blocker_none blocked cleared tool_unavailable refl

abbrev counted : List FailureCount
counted = record { code = "a"; count = 2 } ∷ record { code = "b"; count = 1 } ∷ []

count_in-bump_example :
    (count_in (bump "b" counted) "b" ≡ count_in counted "b" + 1)
    × (count_in (bump "b" counted) "a" ≡ count_in counted "a")
count_in-bump_example = count_in-bump "b" "a" counted refl
