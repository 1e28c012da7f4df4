-- ===== src/Attempts/Store/View.antt =====
-- The store as three mappings: what its dicts are for their readers, without the order of the
-- entries.
use mathlib.Core.Path.{fun_ext}
use codepilot_stable.Base.{
  String, Option, none, some, List, ◌≡◌, refl, dict_get, dict_set, dict_get-dict_set, str_eq,
  if◌then◌else◌, Option-cases, inl, inr,
}
use codepilot_stable.Attempts.Types.{ToolAttemptRecord, ToolStateStore}
use codepilot_stable.Attempts.Store.{put}

pub record View : Type 0 where
  pub attempt : String → Option ToolAttemptRecord
  pub approval : String → Option String
  pub interaction : String → Option String

module _ {ℓ} {V : Type ℓ} where
  unfoldable pub update : String → V → (String → Option V) → String → Option V
  update key value f q = if str_eq key q then some value else f q

  unfoldable pub reading : List (String × V) → String → Option V
  reading entries key = dict_get key entries

  reading-dict_set :
      (key : String) (value : V) (entries : List (String × V))
      → reading (dict_set key value entries) ≡ update key value (reading entries)
  unfolding reading update
  reading-dict_set key value entries = fun_ext (λ q. dict_get-dict_set q key value entries)

unfoldable pub view : ToolStateStore → View
unfolding reading
view store = record {
  attempt = reading store.attempts;
  approval = reading store.approval_index;
  interaction = reading store.interaction_index;
}

-- a record is written, and its ids for the user's answers point to it
unfoldable pub write : String → ToolAttemptRecord → View → View
write id r v = record {
  attempt = update id r v.attempt;
  approval = elim r.challenge [
    | none ↦ v.approval
    | some challenge ↦ update challenge.approval_id r.attempt_id v.approval
  ];
  interaction = elim r.interaction [
    | none ↦ v.interaction
    | some interaction ↦ update interaction.interaction_id r.attempt_id v.interaction
  ];
}

attempt-put :
    (id : String) (r : ToolAttemptRecord) (store : ToolStateStore)
    → (view (put id r store)).attempt ≡ (write id r (view store)).attempt
unfolding view write put
attempt-put id r store = reading-dict_set id r store.attempts

approval-put :
    (id : String) (r : ToolAttemptRecord) (store : ToolStateStore)
    → (view (put id r store)).approval ≡ (write id r (view store)).approval
unfolding view write put
approval-put id r store = elim (Option-cases r.challenge) [
  | inl missing ↦ rw missing refl
  | inr (challenge, found) ↦
      rw found (reading-dict_set challenge.approval_id r.attempt_id store.approval_index)
]

interaction-put :
    (id : String) (r : ToolAttemptRecord) (store : ToolStateStore)
    → (view (put id r store)).interaction ≡ (write id r (view store)).interaction
unfolding view write put
interaction-put id r store = elim (Option-cases r.interaction) [
  | inl missing ↦ rw missing refl
  | inr (i, found) ↦
      rw found (reading-dict_set i.interaction_id r.attempt_id store.interaction_index)
]

view_path :
    {u v : View}
    → u.attempt ≡ v.attempt
    → u.approval ≡ v.approval
    → u.interaction ≡ v.interaction
    → u ≡ v
view_path {u} {v} a b c = cc

pub view-put :
    (id : String) (r : ToolAttemptRecord) (store : ToolStateStore)
    → view (put id r store) ≡ write id r (view store)
view-put id r store =
    view_path (attempt-put id r store) (approval-put id r store) (interaction-put id r store)
