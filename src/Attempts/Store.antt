-- ===== src/Attempts/Store.antt =====
-- `InMemoryToolStateStore` of tools/state.py. Each of its methods holds the lock for the whole call,
-- so that calls of several threads are a sequence of these functions.
pub mod Reads
pub mod View
pub mod Refines
pub mod Final
pub mod Reuse
pub mod Keyed
use codepilot_stable.Base.{
  ℕ, String, Bool, true, false, ◌&&◌, ◌||◌, not, Option, none, some, List, [], ◌∷◌, ◌++◌, map,
  Result, err, ok, value_error, tool_state_conflict, dict_get, dict_set, str_eq, leb, if◌then◌else◌,
}
use codepilot_stable.Security.Types.{
  ToolResource, ToolExecutionRequest, ToolAccessRequest, ApprovalChallenge, ApprovalGrant,
  ApprovalScope, RiskLevel, risk_rank, effects_within,
}
use codepilot_stable.Security.Grants.{expired}
use codepilot_stable.Attempts.Types.{
  ToolAttemptState, ToolAttemptRecord, ToolStateStore, InteractionRequest,
}
use codepilot_stable.Attempts.Transitions.{same_state}

abbrev pub empty_store : ToolStateStore
empty_store = record { attempts = []; approval_index = []; interaction_index = [] }

-- `_index`
unfoldable pub index : ToolAttemptRecord → ToolStateStore → ToolStateStore
unfolding dict_set
index r store = record {
  attempts = store.attempts;
  approval_index = elim r.challenge [
    | none ↦ store.approval_index
    | some challenge ↦ dict_set challenge.approval_id r.attempt_id store.approval_index
  ];
  interaction_index = elim r.interaction [
    | none ↦ store.interaction_index
    | some interaction ↦ dict_set interaction.interaction_id r.attempt_id store.interaction_index
  ];
}

-- `self._attempts[attempt_id] = record; self._index(record)`
unfoldable pub put : String → ToolAttemptRecord → ToolStateStore → ToolStateStore
unfolding index
put attempt_id r store = index r (record store { attempts = dict_set attempt_id r store.attempts })

unfoldable pub get : String → ToolStateStore → Option ToolAttemptRecord
unfolding dict_get
get attempt_id store = dict_get attempt_id store.attempts

unfoldable pub create : ToolAttemptRecord → ToolStateStore → Result ToolStateStore
create r store = elim (get r.attempt_id store) [
  | some old ↦ err tool_state_conflict
  | none ↦ ok (put r.attempt_id r store)
]

unfoldable pub compare_and_set :
    String → ToolAttemptState → ToolAttemptRecord → ToolStateStore → Result ToolStateStore
compare_and_set attempt_id expected_state r store = elim (get attempt_id store) [
  | none ↦ err tool_state_conflict
  | some current ↦
      if not (same_state current.state expected_state)
      then err tool_state_conflict
      else if not (str_eq r.attempt_id attempt_id)
      then err value_error
      else ok (put attempt_id r store)
]

unfoldable pub find_by_approval_id : String → ToolStateStore → Option ToolAttemptRecord
find_by_approval_id approval_id store = elim (dict_get approval_id store.approval_index) [
  | none ↦ none
  | some attempt_id ↦ get attempt_id store
]

unfoldable pub find_by_interaction_id : String → ToolStateStore → Option ToolAttemptRecord
find_by_interaction_id interaction_id store =
    elim (dict_get interaction_id store.interaction_index) [
      | none ↦ none
      | some attempt_id ↦ get attempt_id store
    ]

-- the loop of `pending_challenges`
unfoldable pub waiting_challenges : List (String × ToolAttemptRecord) → List ApprovalChallenge
waiting_challenges [] = []
waiting_challenges ((attempt_id, r) ∷ entries) =
    let rest = waiting_challenges entries in
    if same_state r.state ToolAttemptState.awaiting_approval
    then elim r.challenge [ none ↦ rest | some challenge ↦ challenge ∷ rest ]
    else rest

unfoldable pub pending_challenges : ToolStateStore → List ApprovalChallenge
unfolding waiting_challenges
pending_challenges store = waiting_challenges store.attempts

abbrev pub is_once : ApprovalScope → Bool
is_once ApprovalScope.once = true
is_once _ = false

abbrev pub is_session : ApprovalScope → Bool
is_session ApprovalScope.session = true
is_session _ = false

-- `a == b` on tuples of texts
unfoldable pub same_texts : List String → List String → Bool
same_texts [] [] = true
same_texts [] (b ∷ bs) = false
same_texts (a ∷ as') [] = false
same_texts (a ∷ as') (b ∷ bs) = str_eq a b && same_texts as' bs

abbrev pub uris : List ToolResource → List String
uris resources = map (λ (resource : ToolResource). resource.uri) resources

-- the tests that the loop of `find_reusable_grant` makes of a record with a grant
unfoldable pub is_reusable :
    ℕ → ToolExecutionRequest → ToolAccessRequest → ToolAttemptRecord → ApprovalGrant → Bool
unfolding expired same_texts effects_within
is_reusable now request access r grant =
    not (is_once grant.scope || (r.grant_consumed || expired now grant))
    && (str_eq r.request.registration_id request.registration_id
        && (not (is_session grant.scope && not (str_eq r.request.session_id request.session_id))
            && (same_texts grant.actions access.actions
                && (same_texts (uris grant.resources) (uris access.resources)
                    && (effects_within access.effects grant.effects
                        && leb (risk_rank access.risk) (risk_rank grant.risk))))))

-- The loop runs over the attempts from the newest to the oldest: what stands behind comes first.
unfoldable pub newest_grant :
    ℕ
    → ToolExecutionRequest
    → ToolAccessRequest
    → List (String × ToolAttemptRecord)
    → Option ApprovalGrant
unfolding is_reusable
newest_grant now request access [] = none
newest_grant now request access ((attempt_id, r) ∷ entries) =
    elim (newest_grant now request access entries) [
      | some grant ↦ some grant
      | none ↦ elim r.grant [
        | none ↦ none
        | some grant ↦ if is_reusable now request access r grant then some grant else none
      ]
    ]

unfoldable pub find_reusable_grant :
    ℕ → ToolExecutionRequest → ToolAccessRequest → ToolStateStore → Option ApprovalGrant
unfolding newest_grant
find_reusable_grant now request access store = newest_grant now request access store.attempts
