-- ===== src/Scenarios/Calls.antt =====
-- Calls of a tool that are let through: by a rule, and by an approval of the user.
use codepilot_stable.Base.{String, [], ◌∷◌, ◌≡◌, ◌⊎◌, refl, none, ok, err, Result}
use codepilot_stable.Security.Engine.Allowed.{IsPermitted, IsCleared, decide-IsPermitted}
use codepilot_stable.Attempts.Types.{ToolAttemptRecord, ToolStateStore}
use codepilot_stable.Attempts.Store.{empty_store}
use codepilot_stable.Attempts.Store.Final.{Writes, unwritten, written, creates}
use codepilot_stable.ToolRuntime.Types.{Prepared, Outcome, finished, approval_consumed}
use codepilot_stable.ToolRuntime.Results.{IsChecked}
use codepilot_stable.ToolRuntime.Requests.{init_request, init_request-IsChecked}
use codepilot_stable.Tools.{ToolResult}
use codepilot_stable.ToolRuntime.Prepare.{prepare}
use codepilot_stable.ToolRuntime.Prepare.Admitted.{IsAdmitted, prepare-IsAdmitted}
use codepilot_stable.ToolRuntime.Prepare.Total.{HasNoChallenge, RaisesBlank, prepare_returns}
use codepilot_stable.ToolRuntime.Resume.{resume_approval}
use codepilot_stable.ToolRuntime.Resume.Granted.{IsGranted}
use codepilot_stable.ToolRuntime.Resume.Approved.{IsApproved, resume_approval-IsApproved}
use codepilot_stable.ToolRuntime.Resume.Once.{resume_approval_once}
use codepilot_stable.Security.Types.{ApprovalChallenge}
use codepilot_stable.Scenarios.ToolData.{
  write_request, write_policy, write_access, write_tool, allow_workspace, engine, runtime, moment,
  answered, approval, attempt, stored_or, created, validating_write, validated, resolving_write,
  resolved, asking_write, asked,
}
use codepilot_stable.Attempts.Types.{ToolAttemptState}

abbrev call : Prepared String
call = record {
  request = write_request;
  registration = write_tool;
  resolution = record { input = "/root/a.py"; access = write_access; execution_timeout_ms = none };
  attempt_id = "s1:r1:t1";
}

abbrev store_of : Result (ToolStateStore × Outcome String) → ToolStateStore
store_of (ok (store, outcome)) = store
store_of (err error) = empty_store

decide-IsPermitted_example :
    IsPermitted (engine (allow_workspace ∷ [])) write_request write_policy write_access
    × IsCleared (engine (allow_workspace ∷ [])) write_request write_policy write_access
unfolding stored_or
decide-IsPermitted_example =
    decide-IsPermitted (engine (allow_workspace ∷ [])) write_request write_policy write_access refl

abbrev queued : ToolStateStore
unfolding stored_or
queued = store_of (prepare (runtime (allow_workspace ∷ [])) moment write_request empty_store)

prepare-IsAdmitted_example :
    IsAdmitted (runtime (allow_workspace ∷ [])) moment write_request empty_store queued call
unfolding stored_or queued
prepare-IsAdmitted_example =
    prepare-IsAdmitted (runtime (allow_workspace ∷ [])) moment write_request empty_store queued call
      refl

-- The texts of the request are those that its checks leave.
write_request-IsChecked : IsChecked write_request
unfolding stored_or init_request
write_request-IsChecked = init_request-IsChecked write_request write_request refl

prepare_returns_example :
    ((outcome : ToolStateStore × Outcome String) × (prepare
          (runtime [])
          moment
          write_request
          empty_store
        ≡ ok outcome))
    ⊎ (HasNoChallenge (runtime []) moment write_request
        ⊎ RaisesBlank (runtime []) moment write_request)
prepare_returns_example =
    prepare_returns (runtime []) moment write_request empty_store write_request-IsChecked

abbrev granted : ToolStateStore
unfolding stored_or asked
granted = store_of (resume_approval (runtime []) answered approval asked)

resume_approval-IsApproved_example :
    (r : ToolAttemptRecord) × (challenge : ApprovalChallenge) × IsApproved
      (runtime [])
      answered
      approval
      asked
      r
      challenge
      call
    × IsGranted (runtime []) answered approval granted r challenge
unfolding stored_or asked granted
resume_approval-IsApproved_example =
    resume_approval-IsApproved (runtime []) answered approval asked granted call refl

asked-Writes : Writes empty_store asked
unfolding stored_or created validated resolved asked
asked-Writes =
    written {store = resolved} asking_write
      (written {store = validated} resolving_write
        (written {store = created} validating_write
          (written {store = empty_store} (creates (attempt ToolAttemptState.received)) unwritten
            refl)
          refl)
        refl)
      refl

resume_approval_once_example :
    (result : ToolResult) × (approval_consumed write_request ≡ ok result)
    × (resume_approval (runtime []) answered approval granted ≡ ok (granted, finished result))
unfolding stored_or asked granted
resume_approval_once_example =
    resume_approval_once (runtime []) answered answered approval approval asked granted call
      asked-Writes refl refl write_request-IsChecked
