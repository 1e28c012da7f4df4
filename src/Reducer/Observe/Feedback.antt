-- ===== src/Reducer/Observe/Feedback.antt =====
-- A user's words on a plan that waits for confirmation.
use codepilot_stable.Base.{
  ◌≡◌, refl, sym, ap, ◌∙◌, true, false, Option-cases, some, ◌≢◌, ◌⊎◌, inl, inr, Bool-cases, str_eq,
  eq_iff, filter, List, [], ◌∷◌, any, ok, arith, on_ok, ok_injective,
}
use mathlib.Core.List.{◌++◌}
use codepilot_stable.Literals.{TaskBlockerKind, PlanStatus, plan_incomplete, user_input_required}
use codepilot_stable.Plan.{PlanState}
use mathlib.Core.Path.{subst}
use codepilot_stable.State.{
  CoreState, TaskState, TaskBlocker, has_blocker, kind_eq, init_task, init_blocker,
}
use codepilot_stable.Events.{event}
use codepilot_stable.Observations.{UserInputObservation}
use codepilot_stable.Reducer.Facts.{CoreReduction, without, reset_no_progress}
use codepilot_stable.Reducer.Observe.{is_plan_feedback, input_blockers, reduce_user_input}

has_blocker-append :
    (kind : TaskBlockerKind) (blockers : List TaskBlocker) (b : TaskBlocker)
    → kind_eq b.kind kind ≡ true
    → has_blocker kind (blockers ++ b ∷ []) ≡ true
unfolding any
has_blocker-append kind [] b h = rw h refl
has_blocker-append kind (x ∷ blockers) b h =
    let rest = has_blocker-append kind blockers b h in ground (arith, rest)

kind-init_blocker : (a b : TaskBlocker) → init_blocker a ≡ ok b → b.kind ≡ a.kind
unfolding init_blocker
kind-init_blocker a b h = ground arith

blockers-init_task : (t u : TaskState) → init_task t ≡ ok u → u.blockers ≡ t.blockers
unfolding init_task
blockers-init_task t u h = ground arith

task-reset_no_progress : (s t : CoreState) → reset_no_progress s ≡ ok t → t.task ≡ s.task
unfolding reset_no_progress
task-reset_no_progress s t h = ground arith

has_blocker-without_other :
    (kind other : TaskBlockerKind) (blockers : List TaskBlocker)
    → kind_eq other kind ≡ false
    → has_blocker kind (without other blockers) ≡ has_blocker kind blockers
unfolding any without filter
has_blocker-without_other kind other [] h = refl
has_blocker-without_other kind other (b ∷ blockers) h =
    ground (arith, has_blocker-without_other kind other blockers h)

has_blocker-without :
    (kind : TaskBlockerKind) (blockers : List TaskBlocker)
    → has_blocker kind (without kind blockers) ≡ false
unfolding any without filter
has_blocker-without kind [] = refl
has_blocker-without kind (b ∷ blockers) = ground (arith, has_blocker-without kind blockers)

-- A plan waits for its confirmation, and the text is not the goal.
abbrev pub IsAwaited : CoreState → UserInputObservation → Type 0
IsAwaited s o =
    (plan : PlanState) × (s.task.plan ≡ some plan)
    × (plan.status ≡ PlanStatus.proposed)
    × (o.text ≢ s.task.current_goal)

is_plan_feedback-IsAwaited :
    (s : CoreState) (o : UserInputObservation) → is_plan_feedback s o ≡ true → IsAwaited s o
unfolding is_plan_feedback
is_plan_feedback-IsAwaited s o h = elim (Option-cases s.task.plan) [
  | inl absent ↦ let h' = rw (absent, is_plan_feedback) at h in cc
  | inr (plan, there) ↦
      let h' = rw (there, is_plan_feedback) at h in
      (
        plan,
        there,
        ground (arith, h'),
        λ e. let same = (eq_iff o.text s.task.current_goal).1 e in ground (arith, h', same),
      )
]

IsAwaited-is_plan_feedback :
    (s : CoreState) (o : UserInputObservation) → IsAwaited s o → is_plan_feedback s o ≡ true
unfolding is_plan_feedback
IsAwaited-is_plan_feedback s o (plan, there, proposed, other) =
    elim (Bool-cases (str_eq o.text s.task.current_goal)) [
      | inl same ↦ absurd (other ((eq_iff o.text s.task.current_goal).0 same))
      | inr differs ↦ rw (is_plan_feedback, there, proposed, differs) refl
    ]

input_blockers_due :
    (s : CoreState) (o : UserInputObservation) (blockers : List TaskBlocker)
    → is_plan_feedback s o ≡ true
    → input_blockers s o ≡ ok blockers
    → has_blocker plan_incomplete blockers ≡ true
unfolding input_blockers
input_blockers_due s o blockers f h = on_ok (init_blocker _) _ (rw f at h) λ b e h1.
    ap (has_blocker plan_incomplete) (sym (ok_injective h1))
    ∙ has_blocker-append plan_incomplete _ b
        (ap (λ k. kind_eq k plan_incomplete) (kind-init_blocker _ b e))

has_blocker-append_other :
    (kind : TaskBlockerKind) (blockers : List TaskBlocker) (b : TaskBlocker)
    → kind_eq b.kind kind ≡ false
    → has_blocker kind (blockers ++ b ∷ []) ≡ has_blocker kind blockers
unfolding any
has_blocker-append_other kind [] b h = rw h refl
has_blocker-append_other kind (x ∷ blockers) b h =
    let rest = has_blocker-append_other kind blockers b h in ground (arith, rest)

input_blockers_gone :
    (s : CoreState) (o : UserInputObservation) (blockers : List TaskBlocker)
    → is_plan_feedback s o ≡ true
    → input_blockers s o ≡ ok blockers
    → has_blocker user_input_required blockers ≡ false
unfolding input_blockers
input_blockers_gone s o blockers f h = on_ok (init_blocker _) _ (rw f at h) λ b e h1.
    ap (has_blocker user_input_required) (sym (ok_injective h1))
    ∙ has_blocker-append_other user_input_required _ b
        (ap (λ k. kind_eq k user_input_required) (kind-init_blocker _ b e))
    ∙ has_blocker-without_other user_input_required plan_incomplete
        (without user_input_required s.task.blockers) refl
    ∙ has_blocker-without user_input_required s.task.blockers

-- What a text leaves of the blockers.
abbrev pub Leaves : CoreState → UserInputObservation → List TaskBlocker → Type 0
Leaves s o blockers =
    (has_blocker user_input_required blockers ≡ false)
    × ((IsAwaited s o × (has_blocker plan_incomplete blockers ≡ true))
        ⊎ ((¬ (IsAwaited s o))
            × (has_blocker plan_incomplete blockers ≡ has_blocker plan_incomplete s.task.blockers)))

input_blockers-Leaves :
    (s : CoreState) (o : UserInputObservation) (blockers : List TaskBlocker)
    → input_blockers s o ≡ ok blockers
    → Leaves s o blockers
unfolding input_blockers
input_blockers-Leaves s o blockers h = elim (Bool-cases (is_plan_feedback s o)) [
  | inl due ↦ (
    input_blockers_gone s o blockers due h,
    inl (is_plan_feedback-IsAwaited s o due, input_blockers_due s o blockers due h),
  )
  | inr not_due ↦
      let same : without user_input_required s.task.blockers ≡ blockers =
        ok_injective (rw (not_due, input_blockers) at h) in
      subst (Leaves s o) same (
        has_blocker-without user_input_required s.task.blockers,
        inr (
          (λ awaited. let due = IsAwaited-is_plan_feedback s o awaited in cc),
          has_blocker-without_other plan_incomplete user_input_required s.task.blockers refl,
        ),
      )
]

-- After a text of the user no blocker says that the user's input is required. Where a plan is
-- proposed and the text is not the goal, a blocker says that the plan is incomplete; otherwise such
-- a blocker is there exactly if it was there before.
pub reduce_user_input_feedback :
    (s : CoreState) (o : UserInputObservation) (r : CoreReduction)
    → reduce_user_input s o ≡ ok r
    → Leaves s o r.state.task.blockers
unfolding reduce_user_input
reduce_user_input_feedback s o r h = on_ok (input_blockers s o) _ h λ blockers e1 h1.
    on_ok (init_task _) _ h1 λ task e2 h2.
      on_ok (reset_no_progress (record s { task = task })) _ h2 λ t e3 h3.
        on_ok (event "user_input_received" [] []) _ h3 λ received e4 h4.
          let last : t.task.blockers ≡ r.state.task.blockers =
            ap (λ x. x.state.task.blockers) (ok_injective h4) in
          let same : t.task.blockers ≡ blockers =
            ap (λ x. x.blockers) (task-reset_no_progress (record s { task = task }) t e3)
            ∙ blockers-init_task _ task e2 in
          subst (Leaves s o) (sym same ∙ last) (input_blockers-Leaves s o blockers e1)
