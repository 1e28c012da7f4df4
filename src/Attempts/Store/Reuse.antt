-- ===== src/Attempts/Store/Reuse.antt =====
-- Which grants `find_reusable_grant` hands out: those that cover the access, and where there is one,
-- one of them.
use codepilot_stable.Base.{
  ℕ, String, true, false, none, some, List, [], ◌∷◌, ◌≡◌, ◌≢◌, refl, Holds, front, behind, str_eq,
  eq_iff, eq_refl, Bool-cases, Option-cases, inl, inr, arith, ◌≤◌, ◌∙◌, ap, sym,
}
use codepilot_stable.Security.Types.{
  ToolExecutionRequest, ToolAccessRequest, ApprovalGrant, risk_rank, effects_within,
}
use codepilot_stable.Security.Grants.{expired}
use codepilot_stable.Attempts.Types.{ToolAttemptRecord, ToolStateStore}
use codepilot_stable.Attempts.Store.{
  is_once, is_session, same_texts, uris, is_reusable, newest_grant, find_reusable_grant,
}

-- The grant of an earlier attempt covers an access of a request at a time.
pub Covers :
    ℕ → ToolExecutionRequest → ToolAccessRequest → ToolAttemptRecord → ApprovalGrant → Type 0
Covers now request access r grant =
    (is_once grant.scope ≡ false)
    × (r.grant_consumed ≡ false)
    × (expired now grant ≡ false)
    × (r.request.registration_id ≡ request.registration_id)
    × (is_session grant.scope ≡ true → r.request.session_id ≡ request.session_id)
    × (grant.actions ≡ access.actions)
    × (uris grant.resources ≡ uris access.resources)
    × (effects_within access.effects grant.effects ≡ true)
    × (risk_rank access.risk ≤ risk_rank grant.risk)

same_texts-≡ : (xs ys : List String) → same_texts xs ys ≡ true → xs ≡ ys
unfolding same_texts
same_texts-≡ [] [] h = refl
same_texts-≡ [] (y ∷ ys) h = cc
same_texts-≡ (x ∷ xs) [] h = cc
same_texts-≡ (x ∷ xs) (y ∷ ys) h = elim (Bool-cases (str_eq x y)) [
  | inl same ↦
      let h' = rw same at h in
      let head = (eq_iff x y).0 same in let tail = same_texts-≡ xs ys h' in cc
  | inr other ↦ let h' = rw other at h in absurd (cc)
]

same_texts_refl : (xs : List String) → same_texts xs xs ≡ true
unfolding same_texts
same_texts_refl [] = refl
same_texts_refl (x ∷ xs) = rw (eq_refl x, same_texts_refl xs) refl

is_reusable-Covers :
    (now : ℕ) (request : ToolExecutionRequest) (access : ToolAccessRequest) (r : ToolAttemptRecord)
    (grant : ApprovalGrant)
    → is_reusable now request access r grant ≡ true
    → Covers now request access r grant
unfolding is_reusable Covers
is_reusable-Covers now request access r grant h =
    let registration = eq_iff r.request.registration_id request.registration_id in
    let session = eq_iff r.request.session_id request.session_id in
    let actions = same_texts-≡ grant.actions access.actions in
    let resources = same_texts-≡ (uris grant.resources) (uris access.resources) in
    ground (arith, registration, session, actions, resources)

Covers-is_reusable :
    (now : ℕ) (request : ToolExecutionRequest) (access : ToolAccessRequest) (r : ToolAttemptRecord)
    (grant : ApprovalGrant)
    → Covers now request access r grant
    → is_reusable now request access r grant ≡ true
unfolding is_reusable Covers
Covers-is_reusable now request access r grant c =
    let registration = (eq_iff r.request.registration_id request.registration_id).1 c.3 in
    let session = eq_iff r.request.session_id request.session_id in
    let actions : same_texts grant.actions access.actions ≡ true =
      ap (same_texts grant.actions) (sym c.5) ∙ same_texts_refl grant.actions in
    let resources : same_texts (uris grant.resources) (uris access.resources) ≡ true =
      ap (same_texts (uris grant.resources)) (sym c.6) ∙ same_texts_refl (uris grant.resources) in
    ground (arith, registration, session, actions, resources, c)

newest_grant-Covers :
    (now : ℕ) (request : ToolExecutionRequest) (access : ToolAccessRequest)
    (entries : List (String × ToolAttemptRecord)) (grant : ApprovalGrant)
    → newest_grant now request access entries ≡ some grant
    → (entry : String × ToolAttemptRecord) × Holds entry entries
      × (entry.1.grant ≡ some grant)
      × Covers now request access entry.1 grant
unfolding newest_grant
newest_grant-Covers now request access [] grant h = cc
newest_grant-Covers now request access ((id, r) ∷ entries) grant h =
    elim (Option-cases (newest_grant now request access entries)) [
      | inr (newer, found) ↦
          let h' : some newer ≡ some grant = rw (found, newest_grant) at h in
          let e : newer ≡ grant = cc in
          let rest = newest_grant-Covers now request access entries grant (found ∙ h') in
          (rest.0, behind rest.1, rest.2, rest.3)
      | inl none_newer ↦ elim (Option-cases r.grant) [
        | inl missing ↦ let h' = rw (none_newer, missing, newest_grant) at h in absurd (cc)
        | inr (own, has) ↦
            let h' = rw (none_newer, has, newest_grant) at h in
            elim (Bool-cases (is_reusable now request access r own)) [
              | inr unfit ↦ let h'' = rw unfit at h' in absurd (cc)
              | inl fits ↦
                  let h'' = rw fits at h' in
                  let e : own ≡ grant = cc in
                  let fits' = ap (is_reusable now request access r) (sym e) ∙ fits in
                  ((id, r), front, has ∙ h'', is_reusable-Covers now request access r grant fits')
            ]
      ]
    ]

newest_grant_found :
    (now : ℕ) (request : ToolExecutionRequest) (access : ToolAccessRequest)
    (entry : String × ToolAttemptRecord) (grant : ApprovalGrant)
    {entries : List (String × ToolAttemptRecord)}
    → Holds entry entries
    → entry.1.grant ≡ some grant
    → is_reusable now request access entry.1 grant ≡ true
    → newest_grant now request access entries ≢ none
unfolding newest_grant
newest_grant_found now request access entry grant (front {xs}) has fits h =
    elim (Option-cases (newest_grant now request access xs)) [
      | inl missing ↦ let h' = rw (missing, has, fits, newest_grant) at h in cc
      | inr (newer, found) ↦ let h' = rw (found, newest_grant) at h in cc
    ]
newest_grant_found now request access entry grant (behind {y} {xs} holds) has fits h =
    elim (Option-cases (newest_grant now request access xs)) [
      | inl missing ↦ newest_grant_found now request access entry grant holds has fits missing
      | inr (newer, found) ↦ let h' = rw (found, newest_grant) at h in cc
    ]

-- A grant that is handed out is the grant of an attempt in the store, and covers the access.
pub find_reusable_grant-Covers :
    (now : ℕ) (request : ToolExecutionRequest) (access : ToolAccessRequest) (store : ToolStateStore)
    (grant : ApprovalGrant)
    → find_reusable_grant now request access store ≡ some grant
    → (entry : String × ToolAttemptRecord) × Holds entry store.attempts
      × (entry.1.grant ≡ some grant)
      × Covers now request access entry.1 grant
unfolding find_reusable_grant
find_reusable_grant-Covers now request access store grant h =
    newest_grant-Covers now request access store.attempts grant h

-- Where an attempt in the store has a grant that covers the access, one is handed out.
pub find_reusable_grant_found :
    (now : ℕ) (request : ToolExecutionRequest) (access : ToolAccessRequest) (store : ToolStateStore)
    (entry : String × ToolAttemptRecord) (grant : ApprovalGrant)
    → Holds entry store.attempts
    → entry.1.grant ≡ some grant
    → Covers now request access entry.1 grant
    → find_reusable_grant now request access store ≢ none
unfolding find_reusable_grant
find_reusable_grant_found now request access store entry grant holds has covers =
    newest_grant_found now request access entry grant holds has
      (Covers-is_reusable now request access entry.1 grant covers)
