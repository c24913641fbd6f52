-- ===== src/Jira/Readiness.antt =====
-- The three readings of Jira's settings agree: the check, the test and the assertion.
use gov_flow.Prelude.{
  true, false, not, ◌&&◌, ◌≡◌, refl, sym, ap, none, some, arith, ◌⊎◌, inl, inr, Option-cases,
}
use gov_flow.Errors.{Error}
use gov_flow.Runtime.{JiraSettings, World, ok, err, pure, throw}
use gov_flow.Jira.Service.{
  Readiness, client_unavailable, disabled, not_configured, check_jira_readiness, is_jira_ready,
  require_ready, assert_jira_integration_ready,
}

checked_ready : (s : JiraSettings) → check_jira_readiness s ≡ none → is_jira_ready s ≡ true
unfolding is_jira_ready check_jira_readiness
checked_ready s h = ground arith

checked_unready :
    (s : JiraSettings) (r : Readiness) → check_jira_readiness s ≡ some r → is_jira_ready s ≡ false
unfolding is_jira_ready check_jira_readiness
checked_unready s r h = ground arith

checked_disabled :
    (s : JiraSettings) → check_jira_readiness s ≡ some disabled → (s.client && not s.enabled) ≡ true
unfolding check_jira_readiness
checked_disabled s h = ground arith

checked_other :
    (s : JiraSettings) (r : Readiness)
    → check_jira_readiness s ≡ some r
    → (r ≡ client_unavailable) ⊎ (r ≡ not_configured)
    → (s.client && not s.enabled) ≡ false
unfolding check_jira_readiness
checked_other s r h c = ground arith

-- A call that is refused because Jira is not ready: it is tried again, unless the integration is
-- switched off.
pub record IsRefused (s : JiraSettings) (e : Error) : Type 0 where
  pub retried : e.is_retryable ≡ not (s.client && not s.enabled)
  pub business : e.is_business_failure ≡ (s.client && not s.enabled)

refusal :
    (s : JiraSettings) (r : Readiness) (w : World)
    → check_jira_readiness s ≡ some r
    → (e : Error) × (require_ready (some r) w ≡ (err e, w)) × IsRefused s e
unfolding throw
refusal s client_unavailable w h =
    let on = checked_other s client_unavailable h (inl refl) in
    (_, refl, record { retried = sym (ap not on); business = sym on })
refusal s disabled w h =
    let off = checked_disabled s h in
    (_, refl, record { retried = sym (ap not off); business = sym off })
refusal s not_configured w h =
    let on = checked_other s not_configured h (inr refl) in
    (_, refl, record { retried = sym (ap not on); business = sym on })

-- The test `isJiraReady` and the assertion `assertJiraIntegrationReady` agree on every setting. If
-- Jira is ready, the assertion lets the call through and changes nothing. If not, it throws an
-- error, and that is retryable unless the client is there and the integration is switched off,
-- where it is a business failure instead.
pub assert_jira_integration_ready-is_jira_ready :
    (s : JiraSettings) (w : World)
    → ((is_jira_ready s ≡ true) × (assert_jira_integration_ready s w ≡ (ok tt, w)))
      ⊎ ((is_jira_ready s ≡ false)
          × (e : Error) × (assert_jira_integration_ready s w ≡ (err e, w))
          × IsRefused s e)
unfolding assert_jira_integration_ready pure
assert_jira_integration_ready-is_jira_ready s w = elim (Option-cases (check_jira_readiness s)) [
  | inl e ↦ inl (checked_ready s e, rw (e, assert_jira_integration_ready) refl)
  | inr (r, e) ↦
      let refused = refusal s r w e in
      inr (
        checked_unready s r e,
        refused.0,
        rw (e, assert_jira_integration_ready) refused.1,
        refused.2,
      )
]
