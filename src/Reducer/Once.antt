-- ===== src/Reducer/Once.antt =====
-- An observation and a command are applied once: the ledger makes a second delivery a no-op.
use codepilot_stable.Base.{
  ◌≡◌, String, true, List, [], ◌∷◌, contains, ok, arith, >>=-eq-ok, Bool-cases, inl, inr,
}
use mathlib.Core.List.{◌++◌}
use codepilot_stable.Literals.{RunMode}
use codepilot_stable.State.{CoreState, required_core_text, init_ledger}
use codepilot_stable.State.Texts.{contains-append_last, contains-text_tuple}
use codepilot_stable.Commands.{CoreCommand, command_id}
use codepilot_stable.Observations.{CoreObservation, observation_id}
use codepilot_stable.Reducer.Facts.{CoreReduction, unchanged, mark_seen}
use codepilot_stable.Reducer.Commands.{reduce_command, apply_core_command}
use codepilot_stable.Reducer.Observe.{reduce_kind, reduce_observation}

abbrev pub applied_ids : CoreState → List String
applied_ids s = s.facts.observation_ledger.applied_observation_ids

pub contains-mark_seen :
    (s t : CoreState) (id : String)
    → required_core_text id ≡ ok id
    → mark_seen s id ≡ ok t
    → contains id (applied_ids t) ≡ true
unfolding mark_seen init_ledger
contains-mark_seen s t id f h = ground (
  arith,
  contains-text_tuple id (applied_ids s ++ id ∷ []) (applied_ids t) f
      (contains-append_last id (applied_ids s)),
)

-- After an observation has been reduced, reducing it again, in any mode, leaves the state as it is
-- and gives no event and no command result. The observation's id is in normal form, as each
-- observation's constructor leaves it.
pub reduce_observation_once :
    (s : CoreState) (o : CoreObservation) (mode mode' : RunMode) (r : CoreReduction)
    → required_core_text (observation_id o) ≡ ok (observation_id o)
    → reduce_observation s o mode ≡ ok r
    → reduce_observation r.state o mode' ≡ ok (unchanged r.state)
unfolding reduce_observation
reduce_observation_once s o mode mode' r f h =
    elim (Bool-cases (contains (observation_id o) (applied_ids s))) [
      | inl seen ↦ ground arith
      | inr fresh ↦
          let (first, e, h') = >>=-eq-ok (reduce_kind s o mode) _ (rw fresh at h) in
          let there = contains-mark_seen first.state r.state (observation_id o) f in ground arith
    ]

-- After a command has been applied, applying it again, in any mode, leaves the state as it is and
-- gives no event and no command result. The command's id is in normal form, as each command's
-- constructor leaves it.
pub apply_core_command_once :
    (s : CoreState) (c : CoreCommand) (mode mode' : RunMode) (r : CoreReduction)
    → required_core_text (command_id c) ≡ ok (command_id c)
    → apply_core_command s c mode ≡ ok r
    → apply_core_command r.state c mode' ≡ ok (unchanged r.state)
unfolding apply_core_command
apply_core_command_once s c mode mode' r f h =
    elim (Bool-cases (contains (command_id c) (applied_ids s))) [
      | inl seen ↦ ground arith
      | inr fresh ↦
          let (first, e, h') = >>=-eq-ok (reduce_command s c mode) _ (rw fresh at h) in
          let there = contains-mark_seen first.state r.state (command_id c) f in ground arith
    ]
