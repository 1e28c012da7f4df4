-- ===== src/ToolRuntime/Resume/Once.antt =====
-- An approval lets one call run: each further answer to it is told that it came too late.
use codepilot_stable.Base.{
  String, some, ◌≡◌, refl, sym, ap, ◌∙◌, ok, Option-cases, inl, inr, dict_get,
}
use codepilot_stable.Security.Types.{ApprovalResponse}
use codepilot_stable.Attempts.Types.{ToolAttemptRecord, ToolStateStore}
use codepilot_stable.Attempts.Store.{get, empty_store, find_by_approval_id}
use codepilot_stable.Attempts.Store.Keyed.{IsKeyed, Writes-IsKeyed, Links}
use codepilot_stable.Attempts.Store.Final.{Writes}
use codepilot_stable.ToolRuntime.Types.{ToolRuntime, Prepared, ready, finished, approval_consumed}
use codepilot_stable.ToolRuntime.Results.{IsChecked, approval_consumed_returns}
use codepilot_stable.Tools.{ToolResult}
use mathlib.Core.Path.{subst}
use codepilot_stable.ToolRuntime.Resume.{Answered, resume_approval}
use codepilot_stable.ToolRuntime.Resume.Granted.{IsGranted}
use codepilot_stable.ToolRuntime.Resume.Approved.{IsApproved, resume_approval-ready}

found_link :
    (approval_id : String) (store : ToolStateStore) (r : ToolAttemptRecord)
    → find_by_approval_id approval_id store ≡ some r
    → (id : String) × (dict_get approval_id store.approval_index ≡ some id)
      × (get id store ≡ some r)
unfolding find_by_approval_id
found_link approval_id store r h = elim (Option-cases (dict_get approval_id store.approval_index)) [
  | inl missing ↦ let h' = rw (missing, find_by_approval_id) at h in absurd (cc)
  | inr (id, leads) ↦ let h' = rw (leads, find_by_approval_id) at h in (id, leads, h')
]

module _ {Input : Type 0} (runtime : ToolRuntime Input) (answered later : Answered) where
  -- In a store that creations and transitions have led to, once an answer has let a call run whose
  -- request has the texts that the checks of its class leave, every answer that comes to the same
  -- approval right after it is told that the approval has been consumed, and changes nothing.
  pub resume_approval_once :
      (response again : ApprovalResponse) (store after : ToolStateStore) (call : Prepared Input)
      → Writes empty_store store
      → resume_approval runtime answered response store ≡ ok (after, ready call)
      → again.approval_id ≡ response.approval_id
      → IsChecked call.request
      → (result : ToolResult) × (approval_consumed call.request ≡ ok result)
        × (resume_approval runtime later again after ≡ ok (after, finished result))
  unfolding resume_approval IsApproved IsGranted IsKeyed Links find_by_approval_id
  resume_approval_once response again store after call writes h same checked =
      let runs = resume_approval-ready runtime answered response store after call h in
      let r = runs.0 in
      let link = found_link response.approval_id store r runs.2.0 in
      let own = Writes-IsKeyed writes link.0 r link.2 in
      let leads : dict_get response.approval_id after.approval_index ≡ some r.attempt_id =
        runs.4 response.approval_id (link.1 ∙ ap some (sym own)) in
      let leads' : dict_get again.approval_id after.approval_index ≡ some r.attempt_id =
        ap (λ key. dict_get key after.approval_index) same ∙ leads in
      let granted = runs.3 in
      let consumed = approval_consumed_returns call.request checked in
      let own_request : granted.0.request ≡ call.request = granted.7 ∙ sym runs.2.8 in
      let consumed' =
        subst (λ q. approval_consumed q ≡ ok consumed.0) (sym own_request) consumed.1 in
      (
        consumed.0,
        consumed.1,
        rw (leads', granted.3, granted.4, find_by_approval_id, resume_approval, consumed') refl,
      )
