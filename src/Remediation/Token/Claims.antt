-- ===== src/Remediation/Token/Claims.antt =====
-- What the tests of `verify_token` on the claims of a token mean
-- (src/paic/remediation/approval.py).
use probabilistic_ai_inciden.Base.{
  ℕ, ◌<◌, ◌≤◌, ◌≡◌, refl, false, map, arith, ltb, leb, ltb_false→le, le→ltb_false, leb_false→lt,
  ◌||◌, ◌!=◌, string_eq, passes_ne, same→passes, or_false, ||_false, ok, reject_if-eq-ok,
  reject_if-false,
}
use probabilistic_ai_inciden.Remediation.Models.{action_id}
use probabilistic_ai_inciden.Remediation.Models.Plan.{
  Instant, ApprovalStatus, approved, standing_eq, ApprovalTokenClaims, RemediationPlan, texts_eq,
}
use probabilistic_ai_inciden.Remediation.Token.{
  bytes_eq, check_claims, no_longer_approved, other_plan, stale_snapshot, other_actions,
  outside_window,
}

lt→leb_false : (a b : ℕ) → b < a → leb a b ≡ false
lt→leb_false a b h = ground arith

-- The claims are about the plan, under the status, and the time is in their window.
pub record Covers (claims : ApprovalTokenClaims) (plan : RemediationPlan) (status : ApprovalStatus)
    (at : Instant) : Type 0 where
  pub is_approved : status.status ≡ approved
  pub of_plan : claims.plan_sha256 ≡ plan.plan_sha256
  pub of_incident : claims.incident_id ≡ plan.incident_id
  pub of_snapshot : claims.approval_snapshot_sha256 ≡ status.approval_snapshot_sha256
  pub of_actions : claims.action_ids ≡ map action_id plan.actions
  pub in_window : (claims.issued_at ≤ at) × (at < claims.expires_at) × (at < plan.expires_at)

module _ (claims : ApprovalTokenClaims) (plan : RemediationPlan) (status : ApprovalStatus)
    (at : Instant) where
  pub Covers-check_claims :
      Covers claims plan status at → check_claims claims plan status at ≡ ok tt
  unfolding check_claims
  Covers-check_claims c = reject_if-false _ _ _ (same→passes _ _ c.is_approved) (
      reject_if-false _ _ _ (or_false (same→passes _ _ c.of_plan) (same→passes _ _ c.of_incident)) (
        reject_if-false _ _ _ (same→passes _ _ c.of_snapshot) (
          reject_if-false _ _ _ (same→passes _ _ c.of_actions) (
            reject_if-false _ _ _
              (or_false (or_false (le→ltb_false _ _ c.in_window.0) (lt→leb_false _ _ c.in_window.1))
                (lt→leb_false _ _ c.in_window.2))
              refl))))

  pub check_claims-Covers :
      check_claims claims plan status at ≡ ok tt → Covers claims plan status at
  unfolding check_claims
  check_claims-Covers h =
      let (e1, h1) = reject_if-eq-ok (status.status != approved) no_longer_approved _ h in
      let (e2, h2) =
        reject_if-eq-ok
          (claims.plan_sha256 != plan.plan_sha256 || claims.incident_id != plan.incident_id)
          other_plan _ h1 in
      let (e3, h3) =
        reject_if-eq-ok (claims.approval_snapshot_sha256 != status.approval_snapshot_sha256)
          stale_snapshot _ h2 in
      let (e4, h4) =
        reject_if-eq-ok (claims.action_ids != map action_id plan.actions) other_actions _ h3 in
      let (e5, _) =
        reject_if-eq-ok
          (ltb at claims.issued_at || leb claims.expires_at at || leb plan.expires_at at)
          outside_window _ h4 in
      let (p, q) = ||_false (claims.plan_sha256 != plan.plan_sha256) _ e2 in
      let (window, plan_window) =
        ||_false (ltb at claims.issued_at || leb claims.expires_at at) _ e5 in
      let (early, late) = ||_false (ltb at claims.issued_at) _ window in
      record {
        is_approved = passes_ne _ _ e1;
        of_plan = passes_ne _ _ p;
        of_incident = passes_ne _ _ q;
        of_snapshot = passes_ne _ _ e3;
        of_actions = passes_ne _ _ e4;
        in_window = (ltb_false→le _ _ early, leb_false→lt _ _ late, leb_false→lt _ _ plan_window);
      }
