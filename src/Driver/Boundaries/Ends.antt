-- ===== src/Driver/Boundaries/Ends.antt =====
-- core/driver.py: how a run ends, where the policy ends it, and where its execution is interrupted.
use mathlib.Core.Path.{subst}
use codepilot_stable.Base.{
  suc, String, Bool, true, none, List, [], ◌≡◌, refl, ap, ◌∙◌, ok, on_ok, ok_injective,
}
use codepilot_stable.Literals.{RunMode, TerminationStatus}
use codepilot_stable.Contracts.{CoreDecision, terminate}
use codepilot_stable.Observations.{cancellation, init_cancellation}
use codepilot_stable.Policy.Tests.{PolicyContext, stop}
use codepilot_stable.Policy.{decide}
use codepilot_stable.Driver.Types.{
  Message, MessageJournal, CoreBoundaryKind, CoreBoundary, DriverState,
}
use codepilot_stable.Driver.Transcript.{unsettled_tool_calls}
use codepilot_stable.Driver.Transcript.Settled.{AreTrim}
use codepilot_stable.Driver.Boundaries.{
  apply, commit_boundary, settle_open, decide_next, end_run, must_settle, reason_code,
  close_pending, note_cancelled, terminate_interrupted,
}
use codepilot_stable.Driver.Boundaries.Handed.{
  IsHandedOver, IsClosed, KeepsMessages, reduce_keeps, apply_keeps, IsCommitted,
  commit_boundary-IsCommitted, keeps-IsHandedOver, IsCommitted-IsHandedOver,
  settle_open-IsHandedOver, settle_open-closes,
}

module _ (initial : List Message) (takes : List CoreBoundary → CoreBoundary → Bool) where
  -- The last boundary is taken of a driver with no open call.
  committed-IsClosed :
      (kind : CoreBoundaryKind) (d applied d' : DriverState)
      → IsHandedOver initial d
      → unsettled_tool_calls d.messages.messages ≡ []
      → KeepsMessages d applied
      → commit_boundary takes kind none applied ≡ ok d'
      → IsClosed initial d'
  unfolding IsClosed IsCommitted IsHandedOver
  committed-IsClosed kind d applied d' handed none_open keeps h =
      let taken = commit_boundary-IsCommitted takes kind none applied d' h in
      let (handed', all) =
        IsCommitted-IsHandedOver initial takes applied d' taken
          (keeps-IsHandedOver initial d applied keeps handed) in
      let same : d'.messages.messages ≡ d.messages.messages =
        ap (λ (j : MessageJournal). j.messages) taken.3
        ∙ ap (λ (j : MessageJournal). j.messages) keeps.0 in
      (
        ap unsettled_tool_calls same ∙ none_open,
        all,
        handed'.1,
        ap (λ (j : MessageJournal). j.pending) taken.3,
        taken.4,
      )

  -- Where the policy ends a run whose boundaries have handed over what was added before, and the
  -- last boundary is taken, no call of a tool is open in the transcript that is left, nothing waits
  -- to be committed, and the boundaries have handed over each message that the run added, once and
  -- in order. The ids of the calls that were open have no blanks around them.
  pub decide_next-IsClosed :
      (context : PolicyContext) (status : TerminationStatus) (code message : String)
      (refs : List String) (d next d' : DriverState)
      → IsHandedOver initial d
      → AreTrim (unsettled_tool_calls d.messages.messages)
      → decide_next takes context d ≡ ok (next, terminate status code message refs)
      → end_run takes (terminate status code message refs) next ≡ ok d'
      → IsClosed initial d'
  unfolding decide_next end_run
  decide_next-IsClosed context status code message refs d next d' handed trim decided ended =
      on_ok (decide d.core d.observation context) _ decided (λ decision e h.
        on_ok
          (settle_open takes context.mode (must_settle decision) (reason_code decision)
            (unsettled_tool_calls d.messages.messages) d)
          _ h
          (λ settled e' h'. on_ok (apply decision settled) _ h' (λ applied e'' h''.
            let both = ok_injective h'' in
            let is_next : applied ≡ next = ap (λ (x : DriverState × CoreDecision). x.0) both in
            let ends = ap (λ (x : DriverState × CoreDecision). must_settle x.1) both in
            let settles =
              subst
                (λ asked.
                  settle_open takes context.mode asked (reason_code decision)
                    (unsettled_tool_calls d.messages.messages) d
                  ≡ ok settled)
                ends e' in
            committed-IsClosed CoreBoundaryKind.before_terminal settled next d'
              (settle_open-IsHandedOver initial takes context.mode true _ _ d settled handed
                settles)
              (settle_open-closes initial takes context.mode _ _ d settled handed trim refl settles)
              (subst (KeepsMessages settled) is_next (apply_keeps decision settled applied e''))
              ended)))

  note_cancelled_keeps :
      (mode : RunMode) (status : TerminationStatus) (message : String) (d d' : DriverState)
      → note_cancelled takes mode status message d ≡ ok d'
      → KeepsMessages d d'
  unfolding note_cancelled
  note_cancelled_keeps mode TerminationStatus.cancelled message d d' h =
      on_ok (init_cancellation _) _ h (λ o made h'.
        let next = record d { sequence = suc d.sequence } in
        reduce_keeps mode (cancellation o) next d' h')
  note_cancelled_keeps mode TerminationStatus.failed message d d' h =
      subst (KeepsMessages d) (ok_injective h) (refl, refl)
  note_cancelled_keeps mode TerminationStatus.completed message d d' h =
      subst (KeepsMessages d) (ok_injective h) (refl, refl)

  -- Where the execution of a run is interrupted while no message waits to be committed, and its end
  -- is taken down, no call of a tool is open in the transcript that is left, nothing waits, and the
  -- boundaries have handed over each message that the run added, once and in order. Before, they
  -- had handed over what was added until then, and the ids of the open calls have no blanks around
  -- them.
  pub terminate_interrupted-IsClosed :
      (mode : RunMode) (status : TerminationStatus) (code message : String)
      (kind : CoreBoundaryKind) (d d' : DriverState)
      → IsHandedOver initial d
      → d.messages.pending ≡ []
      → AreTrim (unsettled_tool_calls d.messages.messages)
      → terminate_interrupted takes mode status code message kind d ≡ ok d'
      → IsClosed initial d'
  unfolding terminate_interrupted
  terminate_interrupted-IsClosed mode status code message kind d d' handed idle trim h =
      on_ok (close_pending takes mode code kind d) _ h (λ closed e h1.
        on_ok (note_cancelled takes mode status message closed) _ h1 (λ noted e1 h2.
          on_ok (stop status code message []) _ h2 (λ decision made h3.
            on_ok (apply decision noted) _ h3 (λ applied e2 committed.
              let settles = rw (close_pending, idle) at e in
              let noted_keeps = note_cancelled_keeps mode status message closed noted e1 in
              let applied_keeps = apply_keeps decision noted applied e2 in
              committed-IsClosed CoreBoundaryKind.before_terminal closed applied d'
                (settle_open-IsHandedOver initial takes mode true _ code d closed handed settles)
                (settle_open-closes initial takes mode _ code d closed handed trim refl settles)
                (applied_keeps.0 ∙ noted_keeps.0, applied_keeps.1 ∙ noted_keeps.1) committed))))
