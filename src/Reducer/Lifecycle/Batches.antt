-- ===== src/Reducer/Lifecycle/Batches.antt =====
-- A batch of tool results leaves the plan to the commands that it carries.
use codepilot_stable.Base.{
  ◌≡◌, refl, sym, ap, ◌∙◌, String, Bool, true, false, Option, none, some, List, [], ◌∷◌, ok, arith,
  on_ok, ok_injective,
}
use mathlib.Core.Path.{subst₂}
use codepilot_stable.Literals.{RunMode}
use codepilot_stable.State.{CoreState, TaskBlocker, FailureRecord, init_task}
use codepilot_stable.Tools.{ToolResult, ToolCall, ToolError}
use codepilot_stable.Events.{CoreDomainEvent}
use codepilot_stable.Observations.{ToolBatchObservation}
use codepilot_stable.Reducer.Facts.{
  CoreReduction, with_blockers, put_blocker, remove_blocker, record_failure, sync_replan_blocker,
  sync_verification_blocker,
}
use codepilot_stable.Reducer.Commands.{apply_core_commands}
use codepilot_stable.Reducer.ToolBatch.{
  block_tool, note_error, note_errors, clear_failures, guard_batch, reduce_material, count_batch,
  workspace_events, verification_events,
}
use codepilot_stable.Reducer.Workspace.{reduce_workspace, reduce_verification}
use codepilot_stable.Reducer.Lifecycle.Runs.{Evolves, apply_core_commands-Evolves}

-- Two states have the same plan.
abbrev pub SamePlan : CoreState → CoreState → Type 0
SamePlan s t = t.task.plan ≡ s.task.plan

pub plan-put_blocker : (s t : CoreState) (b : TaskBlocker) → put_blocker s b ≡ ok t → SamePlan s t
unfolding put_blocker init_task
plan-put_blocker s t b h = ground arith

pub plan-record_failure :
    (s t : CoreState) (f : FailureRecord) → record_failure s f ≡ ok t → t.task ≡ s.task
unfolding record_failure
plan-record_failure s t f h = ground arith

plan-sync_replan_blocker : (s t : CoreState) → sync_replan_blocker s ≡ ok t → SamePlan s t
unfolding sync_replan_blocker put_blocker with_blockers init_task
plan-sync_replan_blocker s t h = ground arith

plan-sync_verification_blocker :
    (s t : CoreState) → sync_verification_blocker s ≡ ok t → SamePlan s t
unfolding sync_verification_blocker put_blocker remove_blocker with_blockers init_task
    record_failure
plan-sync_verification_blocker s t h = ground arith

plan-note_error :
    (s t : CoreState) (id : String) (e : ToolError) (event : CoreDomainEvent)
    → note_error s id e ≡ ok (t, event)
    → SamePlan s t
unfolding note_error block_tool put_blocker with_blockers init_task record_failure
plan-note_error s t id e event h = ground arith

plan-clear_failures :
    (s t : CoreState) (clean : Bool) → clear_failures s clean ≡ ok t → SamePlan s t
unfolding clear_failures remove_blocker with_blockers init_task
plan-clear_failures s t false h = ground arith
plan-clear_failures s t true h = ground arith

plan-guard_batch :
    (s t : CoreState) (calls : List ToolCall) (material : List ToolResult) (progress : Bool)
    → guard_batch s calls material progress ≡ ok t
    → SamePlan s t
unfolding guard_batch
plan-guard_batch s t calls material progress h = ground arith

note_next :
    (s t : CoreState) (result : ToolResult) (results : List ToolResult)
    (events : List CoreDomainEvent)
    → ((u v : CoreState) (es : List CoreDomainEvent)
        → note_errors u results ≡ ok (v, es)
        → SamePlan u v)
    → (o : Option ToolError) → result.error ≡ o
    → note_errors s (result ∷ results) ≡ ok (t, events)
    → SamePlan s t
unfolding note_errors
note_next s t result results events ih none e k = ih s t events (rw (e, note_errors) at k)
note_next s t result results events ih (some error) e k =
    on_ok (note_error s result.tool_call_id error) _ (rw (e, note_errors) at k) (λ p e1 k1.
      on_ok (note_errors p.0 results) _ k1 (λ q e2 k2.
        let last : q.0 ≡ t = ap (λ x. x.0) (ok_injective k2) in
        sym (ap (λ u. u.task.plan) last)
        ∙ (ih p.0 q.0 q.1 e2 ∙ plan-note_error s p.0 result.tool_call_id error p.1 e1)))

plan-note_errors :
    (s t : CoreState) (results : List ToolResult) (events : List CoreDomainEvent)
    → note_errors s results ≡ ok (t, events)
    → SamePlan s t
unfolding note_errors
plan-note_errors s t [] events h = ground arith
plan-note_errors s t (result ∷ results) events h =
    note_next s t result results events (λ u v es. plan-note_errors u v results es) result.error
      refl h

pub reduce_material-Evolves :
    (s : CoreState) (o : ToolBatchObservation) (material : List ToolResult) (mode : RunMode)
    (r : CoreReduction)
    → reduce_material s o material mode ≡ ok r
    → Evolves s.task.plan r.state.task.plan
unfolding reduce_material count_batch
reduce_material-Evolves s o material mode r h = on_ok (reduce_workspace _ material) _ h λ w e1 h1.
    on_ok (workspace_events w.0 w.1) _ h1 λ ev1 e2 h2.
      on_ok (reduce_verification _ material w.0.revision w.1) _ h2 λ v e3 h3.
        on_ok (verification_events v _) _ h3 λ ev2 e4 h4.
          on_ok (sync_verification_blocker _) _ h4 λ s4 e5 h5.
            on_ok (note_errors s4 material) _ h5 λ s5 e6 h6.
              on_ok (sync_replan_blocker s5.0) _ h6 λ s6 e7 h7.
                on_ok (apply_core_commands s6 o.commands mode) _ h7 λ done e8 h8.
                  on_ok (clear_failures done.state _) _ h8 λ s7 e9 h9.
                    on_ok (guard_batch s7 o.calls material _) _ h9 λ s8 e10 h10.
                      let before : s6.task.plan ≡ s.task.plan =
                        plan-sync_replan_blocker s5.0 s6 e7
                        ∙ (plan-note_errors s4 s5.0 material s5.1 e6
                            ∙ plan-sync_verification_blocker _ s4 e5) in
                      let last : s8.task.plan ≡ r.state.task.plan =
                        ap (λ x. x.state.task.plan) (ok_injective h10) in
                      let behind : done.state.task.plan ≡ r.state.task.plan =
                        sym (
                          plan-guard_batch s7 s8 o.calls material _ e10
                          ∙ plan-clear_failures done.state s7 _ e9)
                        ∙ last in
                      subst₂ Evolves before behind
                        (apply_core_commands-Evolves s6 o.commands mode done e8)
