-- ===== src/Reducer/Facts/Blockers.antt =====
-- Blockers and failures: what an update changes, and what it leaves.
use codepilot_stable.Base.{
  ◌≡◌, refl, ◌∙◌, ◌+◌, String, Bool, true, false, List, [], ◌∷◌, filter, str_eq, eq_iff, eq_refl,
  ok, arith, Bool-cases, inl, inr,
}
use mathlib.Core.List.{◌++◌, append-nil}
use codepilot_stable.Literals.{TaskBlockerKind}
use codepilot_stable.State.{CoreState, TaskBlocker, FailureCount, kind_eq, count_in, init_task}
use codepilot_stable.Reducer.Facts.{put_blocker, remove_blocker, with_blockers, without, bump}

abbrev pub of_kind : TaskBlockerKind → List TaskBlocker → List TaskBlocker
of_kind kind blockers = filter (λ item. kind_eq item.kind kind) blockers

blockers-with_blockers :
    (s t : CoreState) (blockers : List TaskBlocker)
    → with_blockers s blockers ≡ ok t
    → t.task.blockers ≡ blockers
unfolding with_blockers init_task
blockers-with_blockers s t blockers h = ground arith

of_kind-without :
    (kind : TaskBlockerKind) (blockers : List TaskBlocker)
    → of_kind kind (without kind blockers) ≡ []
unfolding filter without
of_kind-without kind [] = refl
of_kind-without kind (b ∷ blockers) = ground (arith, of_kind-without kind blockers)

without-without :
    (kind : TaskBlockerKind) (blockers : List TaskBlocker)
    → without kind (without kind blockers) ≡ without kind blockers
unfolding filter without
without-without kind [] = refl
without-without kind (b ∷ blockers) = ground (arith, without-without kind blockers)

filter-append :
    (p : TaskBlocker → Bool) (xs ys : List TaskBlocker)
    → filter p (xs ++ ys) ≡ filter p xs ++ filter p ys
unfolding filter
filter-append p [] ys = refl
filter-append p (x ∷ xs) ys = ground (arith, filter-append p xs ys)

kind_eq_refl : (kind : TaskBlockerKind) → kind_eq kind kind ≡ true
kind_eq_refl kind = ground arith

one_left :
    (b : TaskBlocker) (blockers : List TaskBlocker)
    → of_kind b.kind (without b.kind blockers ++ b ∷ []) ≡ b ∷ []
unfolding filter
one_left b blockers =
    filter-append _ (without b.kind blockers) (b ∷ [])
    ∙ rw (of_kind-without b.kind blockers, kind_eq_refl b.kind) refl

others_left :
    (b : TaskBlocker) (blockers : List TaskBlocker)
    → without b.kind (without b.kind blockers ++ b ∷ []) ≡ without b.kind blockers
unfolding filter without
others_left b blockers =
    filter-append _ (without b.kind blockers) (b ∷ [])
    ∙ rw (kind_eq_refl b.kind) (append-nil _ ∙ without-without b.kind blockers)

-- Putting a blocker leaves it as the one blocker of its kind, and the blockers of the other kinds as
-- they were.
pub put_blocker_one :
    (s t : CoreState) (b : TaskBlocker)
    → put_blocker s b ≡ ok t
    → (of_kind b.kind t.task.blockers ≡ b ∷ [])
      × (without b.kind t.task.blockers ≡ without b.kind s.task.blockers)
unfolding put_blocker
put_blocker_one s t b h =
    let e = blockers-with_blockers s t (without b.kind s.task.blockers ++ b ∷ []) h ∙ refl in
    rw (e) (one_left b s.task.blockers, others_left b s.task.blockers)

-- Removing a kind of blocker leaves none of it, and the blockers of the other kinds as they were.
pub remove_blocker_none :
    (s t : CoreState) (kind : TaskBlockerKind)
    → remove_blocker s kind ≡ ok t
    → (of_kind kind t.task.blockers ≡ [])
      × (without kind t.task.blockers ≡ without kind s.task.blockers)
unfolding remove_blocker
remove_blocker_none s t kind h =
    let e = blockers-with_blockers s t (without kind s.task.blockers) h in
    rw e (of_kind-without kind s.task.blockers, without-without kind s.task.blockers)

-- Counting a failure adds one to the count of its code and leaves the count of every other code.
pub count_in-bump :
    (code other : String) (counts : List FailureCount)
    → str_eq other code ≡ false
    → (count_in (bump code counts) code ≡ count_in counts code + 1)
      × (count_in (bump code counts) other ≡ count_in counts other)
unfolding count_in bump
count_in-bump code other [] h =
    let k = eq_refl code in (ground arith, ground (arith, eq_iff code other, eq_iff other code))
count_in-bump code other (item ∷ counts) h =
    let (mine, others) = count_in-bump code other counts h in
    elim (Bool-cases (str_eq item.code code)) [
      | inl e ↦ (
        rw (e, bump, count_in) (ground arith),
        ground (arith, eq_iff item.code code, eq_iff item.code other, eq_iff other code),
      )
      | inr e ↦ ground (arith, mine, others)
    ]
