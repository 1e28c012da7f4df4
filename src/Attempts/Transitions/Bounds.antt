-- ===== src/Attempts/Transitions/Bounds.antt =====
-- How long an attempt can go on: each transition comes nearer to an end, except where the user
-- answers a request for approval.
use codepilot_stable.Base.{
  ℕ, Bool, true, false, List, [], ◌∷◌, ◌≡◌, refl, ap, ok, ◌+◌, ◌*◌, ◌≤◌, arith,
}
use codepilot_stable.Attempts.Types.{
  ToolAttemptState, ToolAttemptRecord, Change, set_challenge, set_interaction,
  set_interaction_consumed, set_grant, set_grant_consumed, set_result, set_cleanup_errors,
}
use codepilot_stable.Attempts.Transitions.{may_become, apply_changes, transition}

-- A state that no transition leaves.
abbrev pub is_final : ToolAttemptState → Bool
is_final ToolAttemptState.succeeded = true
is_final ToolAttemptState.failed = true
is_final ToolAttemptState.denied = true
is_final ToolAttemptState.timed_out = true
is_final ToolAttemptState.cancelled = true
is_final ToolAttemptState.interrupted = true
is_final _ = false

-- the transitions that an attempt has before it, at most, without an answer of the user
abbrev pub ahead : ToolAttemptState → ℕ
ahead ToolAttemptState.received = 7
ahead ToolAttemptState.validating = 6
ahead ToolAttemptState.resolving_access = 5
ahead ToolAttemptState.awaiting_approval = 4
ahead ToolAttemptState.queued = 3
ahead ToolAttemptState.running = 2
ahead ToolAttemptState.awaiting_input = 1
ahead _ = 0

-- 1 where the state waits for an approval
abbrev pub asked : ToolAttemptState → ℕ
asked ToolAttemptState.awaiting_approval = 1
asked _ = 0

may_become-ahead :
    (s t : ToolAttemptState) → may_become s t ≡ true → ahead t + 1 ≤ ahead s + 2 * asked s
unfolding may_become
may_become-ahead s t h = grind arith

pub may_become-final : (s t : ToolAttemptState) → may_become s t ≡ true → is_final s ≡ false
unfolding may_become
may_become-final s t h = ground arith

-- A transition changes the state, and no call gives it another id or request.
pub apply_changes-keeps :
    (r : ToolAttemptRecord) (changes : List Change)
    → ((apply_changes r changes).state ≡ r.state)
      × ((apply_changes r changes).attempt_id ≡ r.attempt_id)
      × ((apply_changes r changes).request ≡ r.request)
unfolding apply_changes
apply_changes-keeps r [] = (refl, refl, refl)
apply_changes-keeps r (set_challenge c ∷ changes) = apply_changes-keeps _ changes
apply_changes-keeps r (set_interaction i ∷ changes) = apply_changes-keeps _ changes
apply_changes-keeps r (set_interaction_consumed b ∷ changes) = apply_changes-keeps _ changes
apply_changes-keeps r (set_grant g ∷ changes) = apply_changes-keeps _ changes
apply_changes-keeps r (set_grant_consumed b ∷ changes) = apply_changes-keeps _ changes
apply_changes-keeps r (set_result v ∷ changes) = apply_changes-keeps _ changes
apply_changes-keeps r (set_cleanup_errors es ∷ changes) = apply_changes-keeps _ changes

pub transition-ok :
    (r q : ToolAttemptRecord) (state : ToolAttemptState) (changes : List Change)
    → transition r state changes ≡ ok q
    → (may_become r.state state ≡ true)
      × (q.state ≡ state)
      × (q.attempt_id ≡ r.attempt_id)
      × (q.request ≡ r.request)
unfolding transition
transition-ok r q state changes h =
    let keeps = apply_changes-keeps (record r { state = state }) changes in ground (arith, keeps)

-- A run of transitions: how many they are, and how many of them leave the state that waits for an
-- approval.
pub data Course (first : ToolAttemptRecord) : ℕ → ℕ → ToolAttemptRecord → Type 0 where
  start : Course first 0 0 first
  moved :
      {n answers : ℕ} {r q : ToolAttemptRecord} (state : ToolAttemptState) (changes : List Change)
      → Course first n answers r
      → transition r state changes ≡ ok q
      → Course first (n + 1) (answers + asked r.state) q

Course_ahead :
    {first last : ToolAttemptRecord} {n answers : ℕ}
    → Course first n answers last
    → n + ahead last.state ≤ ahead first.state + 2 * answers
Course_ahead start = omega arith
Course_ahead (moved {n} {answers} {r} {q} state changes course moves) =
    let moves' = transition-ok r q state changes moves in
    let nearer = may_become-ahead r.state state moves'.0 in
    let same = ap ahead moves'.1 in omega (arith, Course_ahead course, nearer, same)

ahead_bound : (s : ToolAttemptState) → ahead s ≤ 7
ahead_bound s = grind arith

-- A run of transitions of one attempt has seven of them at most, and two more for each time that it
-- leaves the state that waits for an approval.
pub Course_length :
    {first last : ToolAttemptRecord} {n answers : ℕ}
    → Course first n answers last
    → n ≤ 7 + 2 * answers
Course_length {first} course = omega (arith, Course_ahead course, ahead_bound first.state)

may_transition :
    (r : ToolAttemptRecord) (state : ToolAttemptState)
    → may_become r.state state ≡ true
    → transition r state [] ≡ ok (record r { state = state })
unfolding transition
may_transition r state h = rw h

one_step :
    (r : ToolAttemptRecord) (state : ToolAttemptState)
    → may_become r.state state ≡ true
    → (answers : ℕ) × Course r 1 answers (record r { state = state })
one_step r state h = (0 + asked r.state, moved state [] start (may_transition r state h))

-- An end of the attempt that transitions lead to, two of them at most.
pub End : ToolAttemptRecord → Type 0
End r =
    (n answers : ℕ) × (last : ToolAttemptRecord) × Course r n answers last
    × (n ≤ 2)
    × (is_final last.state ≡ true)

one_step-End :
    (r : ToolAttemptRecord) (state : ToolAttemptState)
    → may_become r.state state ≡ true
    → is_final state ≡ true
    → End r
unfolding End
one_step-End r state h f = let step = one_step r state h in (1, step.0, _, step.1, omega arith, f)

-- From every record, transitions that are allowed lead to an end of the attempt: two of them at
-- most.
pub transition-End : (r : ToolAttemptRecord) → End r
unfolding End may_become
transition-End r = from r.state refl
  where
    from : (s : ToolAttemptState) → r.state ≡ s → End r
    from ToolAttemptState.received e =
        let step = one_step r ToolAttemptState.validating (rw e refl) in
        (
          2,
          step.0 + 0,
          _,
          moved ToolAttemptState.failed [] step.1 (may_transition _ ToolAttemptState.failed refl),
          omega arith,
          refl,
        )
    from ToolAttemptState.validating e = one_step-End r ToolAttemptState.failed (rw e refl) refl
    from ToolAttemptState.resolving_access e =
        one_step-End r ToolAttemptState.denied (rw e refl) refl
    from ToolAttemptState.awaiting_approval e =
        one_step-End r ToolAttemptState.denied (rw e refl) refl
    from ToolAttemptState.awaiting_input e = one_step-End r ToolAttemptState.failed (rw e refl) refl
    from ToolAttemptState.queued e = one_step-End r ToolAttemptState.failed (rw e refl) refl
    from ToolAttemptState.running e = one_step-End r ToolAttemptState.failed (rw e refl) refl
    from ToolAttemptState.succeeded e = (0, 0, r, start, omega arith, rw e refl)
    from ToolAttemptState.failed e = (0, 0, r, start, omega arith, rw e refl)
    from ToolAttemptState.denied e = (0, 0, r, start, omega arith, rw e refl)
    from ToolAttemptState.timed_out e = (0, 0, r, start, omega arith, rw e refl)
    from ToolAttemptState.cancelled e = (0, 0, r, start, omega arith, rw e refl)
    from ToolAttemptState.interrupted e = (0, 0, r, start, omega arith, rw e refl)
