-- ===== src/Scenarios/Attempts.antt =====
-- The store of attempts at work, and globs.
use codepilot_stable.Base.{List, some, true, false, [], ◌∷◌, ◌≡◌, ◌≤◌, refl, ◌+◌, ◌*◌}
use codepilot_stable.Text.Glob.{fnmatchcase}
use codepilot_stable.Attempts.Types.{ToolAttemptState, ToolStateStore}
use codepilot_stable.Attempts.Transitions.Bounds.{
  Course, start, moved, Course_length, End, transition-End,
}
use codepilot_stable.Attempts.Store.{empty_store, get, find_by_approval_id, find_by_interaction_id}
use codepilot_stable.Attempts.Store.Final.{
  Write, Writes, unwritten, written, moves, write, Writes-final,
}
use codepilot_stable.Attempts.Store.Final
use codepilot_stable.ToolRuntime.Prepare.{new_attempt}
use codepilot_stable.Attempts.Store.View.{view}
use codepilot_stable.Attempts.Store.Refines.{
  Call, creates, exchanges, store_call, view_call, perform, linked, store_refines,
}
use codepilot_stable.Scenarios.ToolData.{write_request, attempt, stored_or, asked}

glob_range : fnmatchcase "b-" "[a-c]?" ≡ true
unfolding stored_or
glob_range = refl

glob_negated : fnmatchcase "b]" "[!]a-]*" ≡ true
unfolding stored_or
glob_negated = refl

glob_unclosed : fnmatchcase "write" "wr[it" ≡ false
unfolding stored_or
glob_unclosed = refl

-- a call that is refused at the first transitions: it is validated, and fails
two_steps : Course (attempt ToolAttemptState.received) 2 0 (attempt ToolAttemptState.failed)
unfolding stored_or
two_steps =
    moved {r = attempt ToolAttemptState.validating} ToolAttemptState.failed []
      (moved {r = attempt ToolAttemptState.received} ToolAttemptState.validating [] start refl) refl

Course_length_example : 2 ≤ 7 + 2 * 0
Course_length_example = Course_length two_steps

transition-End_example : End (attempt ToolAttemptState.queued)
transition-End_example = transition-End (attempt ToolAttemptState.queued)

-- The same attempt is created twice, and changed twice from one state.
abbrev calls : List Call
calls =
    creates (attempt ToolAttemptState.received)
    ∷ creates (attempt ToolAttemptState.received)
    ∷ exchanges "s1:r1:t1" ToolAttemptState.received (attempt ToolAttemptState.validating)
    ∷ exchanges "s1:r1:t1" ToolAttemptState.received (attempt ToolAttemptState.validating)
    ∷ []

store_refines_example :
    ((perform store_call calls empty_store).1 ≡ (perform view_call calls (view empty_store)).1)
    × (get "s1:r1:t1" (perform store_call calls empty_store).0
        ≡ (perform view_call calls (view empty_store)).0.attempt "s1:r1:t1")
    × (find_by_approval_id "a" (perform store_call calls empty_store).0
        ≡ linked
            (perform view_call calls (view empty_store)).0.approval
            (perform view_call calls (view empty_store)).0
            "a")
    × (find_by_interaction_id "i" (perform store_call calls empty_store).0
        ≡ linked
            (perform view_call calls (view empty_store)).0.interaction
            (perform view_call calls (view empty_store)).0
            "i")
store_refines_example = store_refines calls empty_store "s1:r1:t1" "a" "i"

-- the attempt that waits is denied, and stays denied
abbrev denying : Write
denying = moves (attempt ToolAttemptState.awaiting_approval) ToolAttemptState.denied []

abbrev denied : ToolStateStore
unfolding stored_or asked
denied = stored_or asked (write denying asked)

abbrev another : Write
another = Final.creates (new_attempt "s1:r1:t2" write_request)

abbrev later : ToolStateStore
unfolding stored_or denied
later = stored_or denied (write another denied)

Writes-final_example : get "s1:r1:t1" later ≡ some (attempt ToolAttemptState.denied)
unfolding stored_or asked denied later
Writes-final_example =
    Writes-final "s1:r1:t1" (attempt ToolAttemptState.denied)
      (written {store = denied} another unwritten refl) refl refl
