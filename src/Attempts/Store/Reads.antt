-- ===== src/Attempts/Store/Reads.antt =====
-- What the store answers after a record was put into it.
use codepilot_stable.Base.{
  String, true, false, none, some, ◌≡◌, refl, ok, dict_get-dict_set, str_eq, eq_refl, eq_iff,
  if◌then◌else◌, Bool-cases, Option-cases, inl, inr, ◌∙◌,
}
use codepilot_stable.Attempts.Types.{ToolAttemptState, ToolAttemptRecord, ToolStateStore}
use codepilot_stable.Attempts.Transitions.{same_state}
use codepilot_stable.Attempts.Store.{get, put, index, create, compare_and_set}

pub get-put :
    (id put_id : String) (r : ToolAttemptRecord) (store : ToolStateStore)
    → get id (put put_id r store) ≡ (if str_eq put_id id then some r else get id store)
unfolding get put index
get-put id put_id r store = dict_get-dict_set id put_id r store.attempts

pub get-put_same :
    (id : String) (r : ToolAttemptRecord) (store : ToolStateStore)
    → get id (put id r store) ≡ some r
get-put_same id r store = let same = eq_refl id in get-put id id r store ∙ rw same refl

pub get-put_other :
    (id put_id : String) (r : ToolAttemptRecord) (store : ToolStateStore)
    → str_eq put_id id ≡ false
    → get id (put put_id r store) ≡ get id store
get-put_other id put_id r store other = get-put id put_id r store ∙ rw other refl

-- A creation that returns: the id was free.
pub create-ok :
    (r : ToolAttemptRecord) (store after : ToolStateStore)
    → create r store ≡ ok after
    → (get r.attempt_id store ≡ none) × (after ≡ put r.attempt_id r store)
unfolding create
create-ok r store after h = elim (Option-cases (get r.attempt_id store)) [
  | inl free ↦ let h' = rw (free, create) at h in (free, cc)
  | inr (old, taken) ↦ let h' = rw (taken, create) at h in absurd (cc)
]

-- An exchange that returns: the record was there, in the state that was expected.
pub compare_and_set-ok :
    (id : String) (expected : ToolAttemptState) (r : ToolAttemptRecord)
    (store after : ToolStateStore)
    → compare_and_set id expected r store ≡ ok after
    → (current : ToolAttemptRecord) × (get id store ≡ some current)
      × (same_state current.state expected ≡ true)
      × (r.attempt_id ≡ id)
      × (after ≡ put id r store)
unfolding compare_and_set
compare_and_set-ok id expected r store after h = elim (Option-cases (get id store)) [
  | inl missing ↦ let h' = rw (missing, compare_and_set) at h in absurd (cc)
  | inr (current, found) ↦
      let h' = rw (found, compare_and_set) at h in
      elim (Bool-cases (same_state current.state expected)) [
        | inr other ↦ let h'' = rw other at h' in absurd (cc)
        | inl same ↦
            let h'' = rw same at h' in
            elim (Bool-cases (str_eq r.attempt_id id)) [
              | inr differs ↦ let h''' = rw differs at h'' in absurd (cc)
              | inl equal ↦
                  let h''' = rw equal at h'' in
                  (current, found, same, (eq_iff r.attempt_id id).0 equal, cc)
            ]
      ]
]
