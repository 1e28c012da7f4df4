-- ===== src/Driver/Boundaries/Handed.antt =====
-- core/driver.py: what the boundaries of a run hand over of its journal of messages.
use mathlib.Core.Path.{subst}
use mathlib.Core.List.{append-nil, append_assoc}
use codepilot_stable.Base.{
  suc, String, Bool, true, false, none, Option, List, [], ◌∷◌, ◌++◌, ◌≡◌, refl, sym, ap, ◌∙◌, ok,
  on_ok, ok_injective, guard, value_error, boundary_commit_error,
}
use codepilot_stable.Literals.{RunMode}
use codepilot_stable.Tools.{ToolCall, ToolResult}
use codepilot_stable.Contracts.{CoreWait, CoreDecision}
use codepilot_stable.Observations.{CoreObservation, tool_batch, init_tool_batch}
use codepilot_stable.Reducer.Observe.{reduce_observation}
use codepilot_stable.Reducer.Decision.{apply_decision}
use codepilot_stable.Driver.Types.{
  Message, MessageJournal, CoreBoundaryKind, CoreBoundary, DriverState,
}
use codepilot_stable.Driver.Transcript.{unsettled_tool_calls}
use codepilot_stable.Driver.Transcript.Settled.{AreTrim, unsettled_tool_calls_settled}
use codepilot_stable.Driver.ToolStep.{interrupted_tool_results, project_final_tool_messages}
use codepilot_stable.Driver.Boundaries.{
  wait_fits, extend, reduce, apply, commit_boundary, settle_unexecuted_calls, settle_open,
}

-- the messages that the boundaries handed over, in their order
abbrev pub handed_over : List CoreBoundary → List Message
handed_over [] = []
handed_over (boundary ∷ boundaries) = boundary.new_messages ++ handed_over boundaries

-- What was added is what was handed over and what waits, and it follows what was there first.
unfoldable pub IsHandedOver : List Message → DriverState → Type 0
IsHandedOver initial d =
    (handed_over d.committed ++ d.messages.pending ≡ d.messages.added)
    × (d.messages.messages ≡ initial ++ d.messages.added)

-- No call is open, nothing waits, and each message that was added has been handed over once.
unfoldable pub IsClosed : List Message → DriverState → Type 0
IsClosed initial d =
    (unsettled_tool_calls d.messages.messages ≡ [])
    × (handed_over d.committed ≡ d.messages.added)
    × (d.messages.messages ≡ initial ++ d.messages.added)
    × (d.messages.pending ≡ [])
    × (d.events ≡ [])

-- An operation that leaves the messages and the boundaries as they are
abbrev pub KeepsMessages : DriverState → DriverState → Type 0
KeepsMessages d d' = (d'.messages ≡ d.messages) × (d'.committed ≡ d.committed)

pub reduce_keeps :
    (mode : RunMode) (o : CoreObservation) (d d' : DriverState)
    → reduce mode o d ≡ ok d'
    → KeepsMessages d d'
unfolding reduce
reduce_keeps mode o d d' h =
    on_ok (reduce_observation d.core o mode) _ h
      (λ reduction e h'. subst (KeepsMessages d) (ok_injective h') (refl, refl))

pub apply_keeps :
    (decision : CoreDecision) (d d' : DriverState) → apply decision d ≡ ok d' → KeepsMessages d d'
unfolding apply
apply_keeps decision d d' h =
    on_ok (apply_decision d.core decision) _ h
      (λ reduction e h'. subst (KeepsMessages d) (ok_injective h') (refl, refl))

module _ (takes : List CoreBoundary → CoreBoundary → Bool) where
  -- what a boundary that was taken leaves behind
  unfoldable pub IsCommitted : DriverState → DriverState → Type 0
  IsCommitted d d' =
      (boundary : CoreBoundary) × (boundary.new_messages ≡ d.messages.pending)
      × (d'.committed ≡ d.committed ++ (boundary ∷ []))
      × (d'.messages ≡ record d.messages { pending = [] })
      × (d'.events ≡ [])

  pub commit_boundary-IsCommitted :
      (kind : CoreBoundaryKind) (w : Option CoreWait) (d d' : DriverState)
      → commit_boundary takes kind w d ≡ ok d'
      → IsCommitted d d'
  unfolding commit_boundary IsCommitted
  commit_boundary-IsCommitted kind w d d' h =
      on_ok (guard (wait_fits kind w) value_error) _ h (λ u fits h'.
        on_ok (guard (takes d.committed _) boundary_commit_error) _ h'
          (λ u' taken h''. subst (IsCommitted d) (ok_injective h'') (_, refl, refl, refl, refl)))

handed_over-++ :
    (boundaries : List CoreBoundary) (boundary : CoreBoundary)
    → handed_over (boundaries ++ (boundary ∷ [])) ≡ handed_over boundaries ++ boundary.new_messages
handed_over-++ [] boundary = append-nil boundary.new_messages
handed_over-++ (b ∷ boundaries) boundary =
    ap (λ ms. b.new_messages ++ ms) (handed_over-++ boundaries boundary)
    ∙ sym (append_assoc b.new_messages (handed_over boundaries) boundary.new_messages)

module _ (initial : List Message) where
  pub keeps-IsHandedOver :
      (d d' : DriverState) → KeepsMessages d d' → IsHandedOver initial d → IsHandedOver initial d'
  unfolding IsHandedOver
  keeps-IsHandedOver d d' keeps h = rw (keeps.0, keeps.1) h

  extend-IsHandedOver :
      (messages : List Message) (d : DriverState)
      → IsHandedOver initial d
      → IsHandedOver initial (record d { messages = extend messages d.messages })
  unfolding IsHandedOver extend
  extend-IsHandedOver messages d h = (
    sym (append_assoc (handed_over d.committed) d.messages.pending messages)
        ∙ ap (λ ms. ms ++ messages) h.0,
    ap (λ ms. ms ++ messages) h.1 ∙ append_assoc initial d.messages.added messages,
  )

  pub IsCommitted-IsHandedOver :
      (takes : List CoreBoundary → CoreBoundary → Bool) (d d' : DriverState)
      → IsCommitted takes d d'
      → IsHandedOver initial d
      → IsHandedOver initial d' × (handed_over d'.committed ≡ d'.messages.added)
  unfolding IsHandedOver IsCommitted
  IsCommitted-IsHandedOver takes d d' (boundary, pending, committed, messages, events) h =
      let handed : handed_over d'.committed ≡ d.messages.added = rw committed (
        handed_over-++ d.committed boundary
        ∙ ap (λ ms. handed_over d.committed ++ ms) pending
        ∙ h.0) in
      rw messages (((append-nil _ ∙ handed), h.1), handed)

  module _ (takes : List CoreBoundary → CoreBoundary → Bool) (mode : RunMode) where
    -- Messages are put down, and then a boundary takes them.
    extended-IsHandedOver :
        (messages : List Message) (kind : CoreBoundaryKind) (w : Option CoreWait)
        (d reduced d' : DriverState)
        → IsHandedOver initial d
        → KeepsMessages d reduced
        → commit_boundary takes kind w
            (record reduced { messages = extend messages reduced.messages })
          ≡ ok d'
        → IsHandedOver initial d' × (d'.messages.messages ≡ d.messages.messages ++ messages)
    unfolding IsCommitted extend
    extended-IsHandedOver messages kind w d reduced d' handed keeps h =
        let made = record reduced { messages = extend messages reduced.messages } in
        let taken = commit_boundary-IsCommitted takes kind w made d' h in
        let ready =
          extend-IsHandedOver messages reduced (keeps-IsHandedOver d reduced keeps handed) in
        (
          (IsCommitted-IsHandedOver takes made d' taken ready).0,
          ap (λ (j : MessageJournal). j.messages) taken.3
              ∙ ap (λ (j : MessageJournal). j.messages ++ messages) keeps.0,
        )

    settle_messages :
        (calls : List ToolCall) (reason : String) (d d' : DriverState)
        → IsHandedOver initial d
        → settle_unexecuted_calls takes mode calls reason d ≡ ok d'
        → IsHandedOver initial d'
          × (message : String) × (results : List ToolResult) × (interrupted_tool_results calls
                "core.tool_not_executed" message
              ≡ ok results)
          × (d'.messages.messages ≡ d.messages.messages ++ project_final_tool_messages results)
    unfolding settle_unexecuted_calls
    settle_messages calls reason d d' handed h =
        on_ok (interrupted_tool_results calls "core.tool_not_executed" _) _ h (λ results e1 h1.
          on_ok (init_tool_batch _) _ h1 (λ o made h2.
            let next = record d { sequence = suc d.sequence } in
            on_ok (reduce mode (tool_batch o) next) _ h2 (λ reduced e h3.
              let keeps = reduce_keeps mode (tool_batch o) next reduced e in
              let (handed', shown) =
                extended-IsHandedOver _ CoreBoundaryKind.after_tools none d reduced d' handed keeps
                  h3 in
              (handed', _, results, e1, shown))))

    pub settle_open-IsHandedOver :
        (asked : Bool) (calls : List ToolCall) (reason : String) (d d' : DriverState)
        → IsHandedOver initial d
        → settle_open takes mode asked reason calls d ≡ ok d'
        → IsHandedOver initial d'
    unfolding settle_open
    settle_open-IsHandedOver asked [] reason d d' handed h =
        subst (IsHandedOver initial) (ok_injective h) handed
    settle_open-IsHandedOver true (call ∷ calls) reason d d' handed h =
        (settle_messages (call ∷ calls) reason d d' handed h).0
    settle_open-IsHandedOver false (call ∷ calls) reason d d' handed h =
        subst (IsHandedOver initial) (ok_injective h) handed

    pub settle_open-closes :
        (calls : List ToolCall) (reason : String) (d d' : DriverState)
        → IsHandedOver initial d
        → AreTrim calls
        → calls ≡ unsettled_tool_calls d.messages.messages
        → settle_open takes mode true reason calls d ≡ ok d'
        → unsettled_tool_calls d'.messages.messages ≡ []
    unfolding settle_open
    settle_open-closes [] reason d d' handed trim unsettled h =
        subst (λ (x : DriverState). unsettled_tool_calls x.messages.messages ≡ []) (ok_injective h)
          (sym unsettled)
    settle_open-closes (call ∷ calls) reason d d' handed trim unsettled h =
        let (handed', message, results, made, shown) =
          settle_messages (call ∷ calls) reason d d' handed h in
        ap unsettled_tool_calls shown
        ∙ unsettled_tool_calls_settled d.messages.messages "core.tool_not_executed" message results
            (subst AreTrim unsettled trim)
            (subst (λ cs. interrupted_tool_results cs "core.tool_not_executed" message ≡ ok results)
              unsettled made)
