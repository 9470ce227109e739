-- ===== src/Remediation/Approval/Quorum.antt =====
-- What an approved status rests on: `evaluate_approval` of approval.py.
use Prim.Native.String.{len}
use probabilistic_ai_inciden.Base.{
  ℕ, ◌≤◌, ◌<◌, ◌≡◌, ◌≢◌, refl, ap, ◌∙◌, subst, String, Bool, true, false, not, ◌&&◌, some, List, [],
  ◌∷◌, map, inl, inr, arith, length, keep, All, ◌==◌, string_eq, passes_ne, ||_false, eq→beq,
  beq_false→ne, ltb, min, ltb_false→le, leb_false→lt, ok, >>=-eq-ok, reject_if-eq-ok,
  or_raise-eq-ok, Bool-cases, not-false, &&_intro, length-map, All-weaken, >>=_assoc, ok-injective,
}
use probabilistic_ai_inciden.Base.Membership.{Distinct, to_set, is_unique→Distinct}
use probabilistic_ai_inciden.Remediation.Models.{high}
use probabilistic_ai_inciden.Remediation.Models.Plan
use probabilistic_ai_inciden.Remediation.Models.Plan.{
  Instant, approve, reject, ApprovalDecision, ApprovalAttestation, ApprovalLedgerRecord,
  ApprovalStatus, RemediationPlan, denied, plan_status_eq, risk_level_eq,
}
use probabilistic_ai_inciden.Remediation.Config.{RemediationConfig, ApproverIdentity, Crypto}
use probabilistic_ai_inciden.Remediation.Approval.Ledger.{decision_of}
use probabilistic_ai_inciden.Remediation.Decisions.{
  ApprovalError, ApprovalLedger, zero_hash, validate_from, validate,
}
use probabilistic_ai_inciden.Remediation.Approval.{
  registered_identity, attestation_payload, check_attestation, verify_attestation, aware,
  check_decision, collect, is_approval, approver_of, group_of, standing, conclude,
  evaluate_approval,
}

-- A decision that the evaluation accepts: it is about the plan, was made in the plan's window and
-- not after the evaluation, not by the requester unless that is allowed, by a registered approver
-- in its registered group, and it carries that approver's keyed hash of its own fields.
pub record IsAttested (crypto : Crypto) (plan : RemediationPlan) (config : RemediationConfig)
    (at : Instant) (d : ApprovalDecision) : Type 0 where
  pub of_plan : d.plan_sha256 ≡ plan.plan_sha256
  pub in_window : (plan.requested_at ≤ d.decided_at) × (d.decided_at < plan.expires_at)
  pub not_future : d.decided_at ≤ at
  pub not_requester :
      config.approval.allow_requester_approval ≡ false → d.approver_id ≢ plan.requested_by
  pub signed :
      (identity : ApproverIdentity) × (attestation : ApprovalAttestation) × (key : String)
      × (registered_identity config d.approver_id ≡ some identity)
      × (d.approver_group ≡ identity.approver_group)
      × (d.attestation ≡ some attestation)
      × (attestation.key_id ≡ identity.key_id)
      × (crypto.environ identity.key_env ≡ some key)
      × (config.approval.minimum_secret_bytes ≤ len key)
      × (attestation.signature
          ≡ crypto.attestation_hmac key
              (attestation_payload d identity.approver_group identity.key_id attestation.nonce))

-- The plan that a quorum of distinct approvers lets through.
pub record HasQuorum (crypto : Crypto) (plan : RemediationPlan) (ledger : ApprovalLedger)
    (config : RemediationConfig) (at : Instant) : Type 0 where
  pub not_denied : plan.status ≢ denied
  pub not_expired : at < plan.expires_at
  pub attested : All (IsAttested crypto plan config at) (map decision_of ledger)
  pub unanimous : All (λ (d : ApprovalDecision). d.decision ≡ approve) (map decision_of ledger)
  pub enough : plan.required_approvals ≤ length ledger
  pub distinct : Distinct (map approver_of (map decision_of ledger))
  pub groups :
      plan.risk_level ≡ high
      → config.approval.require_distinct_groups_for_high_risk ≡ true
      → plan.required_approvals ≤ length (to_set (map group_of (map decision_of ledger)))

&&_right : (a b : Bool) → a ≡ true → (a && b) ≡ false → b ≡ false
&&_right a b p q = ground arith

module _ (crypto : Crypto) (plan : RemediationPlan) (config : RemediationConfig)
    (at : Instant) where
  verify_attestation_sound :
      (d : ApprovalDecision) (seen seen' : List String)
      → verify_attestation crypto d config seen ≡ ok seen'
      → (identity : ApproverIdentity) × (attestation : ApprovalAttestation) × (key : String)
        × (registered_identity config d.approver_id ≡ some identity)
        × (d.approver_group ≡ identity.approver_group)
        × (d.attestation ≡ some attestation)
        × (attestation.key_id ≡ identity.key_id)
        × (crypto.environ identity.key_env ≡ some key)
        × (config.approval.minimum_secret_bytes ≤ len key)
        × (attestation.signature
            ≡ crypto.attestation_hmac key
                (attestation_payload d identity.approver_group identity.key_id attestation.nonce))
  unfolding verify_attestation check_attestation
  verify_attestation_sound d seen seen' h =
      let (_, h1) = reject_if-eq-ok _ _ _ h in
      let (identity, found, h2) =
        or_raise-eq-ok (registered_identity config d.approver_id)
          ApprovalError.unregistered_approver _ h1 in
      let (attestation, there, h3) =
        or_raise-eq-ok d.attestation ApprovalError.bad_attestation_key _ h2 in
      let (key_id, h4) = reject_if-eq-ok _ _ _ h3 in
      let (group, h5) = reject_if-eq-ok _ _ _ h4 in
      let (_, h6) = reject_if-eq-ok _ _ _ h5 in
      let (key, env, h7) =
        or_raise-eq-ok (crypto.environ identity.key_env) ApprovalError.key_unavailable _ h6 in
      let (long, h8) = reject_if-eq-ok _ _ _ h7 in
      let (signature, h9) = reject_if-eq-ok _ _ _ h8 in
      (
        identity,
        attestation,
        key,
        found,
        passes_ne _ _ group,
        there,
        passes_ne _ _ key_id,
        env,
        ltb_false→le _ _ long,
        passes_ne _ _ signature,
      )

  check_decision_sound :
      (d : ApprovalDecision) (seen seen' : List String)
      → verify_attestation crypto d config seen ≡ ok seen'
      → check_decision plan config at d ≡ ok tt
      → IsAttested crypto plan config at d
  unfolding check_decision
  check_decision_sound d seen seen' v h =
      let (plans, h1) = reject_if-eq-ok _ _ _ h in
      let (window, h2) = reject_if-eq-ok _ _ _ h1 in
      let (future, h3) = reject_if-eq-ok _ _ _ h2 in
      let (requester, h4) = reject_if-eq-ok _ _ _ h3 in
      let bounds = ||_false _ _ window in
      record {
        of_plan = passes_ne _ _ plans;
        in_window = (ltb_false→le _ _ bounds.0, leb_false→lt _ _ bounds.1);
        not_future = ltb_false→le _ _ future;
        not_requester = λ strict. beq_false→ne _ _ (&&_right _ _ (ap not strict) requester);
        signed = verify_attestation_sound d seen seen' v;
      }

  collect_sound :
      (seen : List String) (ledger : ApprovalLedger) (decisions : List ApprovalDecision)
      → collect crypto plan config at seen ledger ≡ ok decisions
      → (decisions ≡ map decision_of ledger)
        × All (IsAttested crypto plan config at) (map decision_of ledger)
  unfolding collect
  collect_sound seen [] decisions h = (cc, tt)
  collect_sound seen (r ∷ rest) decisions h =
      let (seen', v, h1) = >>=-eq-ok (verify_attestation crypto r.decision config seen) _ h in
      let (_, c, h2) = >>=-eq-ok (check_decision plan config at r.decision) _ h1 in
      let (tail, t, h3) = >>=-eq-ok (collect crypto plan config at seen' rest) _ h2 in
      let (e, all) = collect_sound seen' rest tail t in
      (cc, (check_decision_sound r.decision seen seen' v c, all))

standing_approved :
    (plan : RemediationPlan) (at : Instant) (approvals rejections : ℕ)
    → standing plan at approvals rejections ≡ Plan.approved
    → ((plan.status == denied) ≡ false)
      × (rejections ≡ 0)
      × (at < plan.expires_at)
      × (plan.required_approvals ≤ approvals)
unfolding standing
standing_approved plan at approvals rejections h = ground arith

keep-All {ℓ} :
    {A : Type ℓ} (p : A → Bool) (xs : List A)
    → length (keep (λ x. not (p x)) xs) ≡ 0
    → (keep p xs ≡ xs) × All (λ x. p x ≡ true) xs
keep-All p [] h = (refl, tt)
keep-All p (x ∷ xs) h = elim (Bool-cases (p x)) [
  | inl t ↦ let ih = keep-All p xs (ground arith) in (rw t (ap (◌∷◌ x) ih.0), (t, ih.1))
  | inr f ↦ absurd (ground arith)
]

is_approval-approve : (d : ApprovalDecision) → is_approval d ≡ true → d.decision ≡ approve
is_approval-approve d h = ground arith

length-decisions : (xs : ApprovalLedger) → length (map decision_of xs) ≡ length xs
length-decisions = length-map decision_of

module _ (crypto : Crypto) (plan : RemediationPlan) (config : RemediationConfig)
    (at : Instant) where
  conclude_sound :
      (decisions : List ApprovalDecision) (st : ApprovalStatus)
      → conclude crypto plan config at decisions ≡ ok st
      → st.status ≡ Plan.approved
      → (plan.status ≢ denied)
        × (at < plan.expires_at)
        × All (λ (d : ApprovalDecision). d.decision ≡ approve) decisions
        × (plan.required_approvals ≤ length decisions)
        × Distinct (map approver_of decisions)
        × (plan.risk_level ≡ high
            → config.approval.require_distinct_groups_for_high_risk ≡ true
            → plan.required_approvals ≤ length (to_set (map group_of decisions)))
  unfolding conclude
  conclude_sound decisions st h approved =
      let (unique, h1) = reject_if-eq-ok _ _ _ h in
      let (groups, h2) = reject_if-eq-ok _ _ _ h1 in
      let e = ap (λ (s : ApprovalStatus). s.status) (ok-injective h2) in
      let (awaits, none_rejects, early, enough) =
        standing_approved plan at (length (keep is_approval decisions))
          (length (keep (λ d. not (is_approval d)) decisions)) (e ∙ approved) in
      let (same, all_approve) = keep-All is_approval decisions none_rejects in
      let enough' = rw same at enough in
      let unique' =
        rw same at (
          is_unique→Distinct (map approver_of (keep is_approval decisions)) (not-false _ unique)) in
      let groups' = subst (λ xs. groups_test xs ≡ false) same groups in
      (
        beq_false→ne _ _ awaits,
        early,
        All-weaken is_approval-approve decisions all_approve,
        enough',
        unique',
        λ risk strict. distinct_groups groups' enough' risk strict,
      )
    where
      groups_test : List ApprovalDecision → Bool
      groups_test xs =
          plan.risk_level == high
          && config.approval.require_distinct_groups_for_high_risk
          && ltb (length (to_set (map group_of xs))) (min plan.required_approvals (length xs))

      distinct_groups :
          groups_test decisions ≡ false
          → plan.required_approvals ≤ length decisions
          → plan.risk_level ≡ high
          → config.approval.require_distinct_groups_for_high_risk ≡ true
          → plan.required_approvals ≤ length (to_set (map group_of decisions))
      distinct_groups g n risk strict =
          let few = &&_right _ _ (&&_intro (eq→beq _ _ risk) strict) g in
          let bound =
            ltb_false→le (length (to_set (map group_of decisions)))
              (min plan.required_approvals (length decisions)) few in
          omega arith

  -- A status is `approved` only with a quorum: the plan was not denied and has not expired, every
  -- decision in the ledger approves it and is attested by a registered approver other than the
  -- requester, the approvers are distinct and at least as many as the plan requires, and for a
  -- high-risk plan, where the configuration asks for it, so are their groups.
  pub evaluate_approval_quorum :
      (ledger : ApprovalLedger) (st : ApprovalStatus)
      → evaluate_approval crypto plan ledger config (aware at) ≡ ok st
      → st.status ≡ Plan.approved
      → HasQuorum crypto plan ledger config at
  unfolding evaluate_approval validate
  evaluate_approval_quorum ledger st h approved =
      let (_, v, h1) =
        >>=-eq-ok (validate_from crypto 1 zero_hash [] ledger) _ (rw >>=_assoc at h) in
      let (decisions, c, h2) = >>=-eq-ok (collect crypto plan config at [] ledger) _ h1 in
      let (same, attested) = collect_sound crypto plan config at [] ledger decisions c in
      let (open', early, unanimous, enough, distinct, groups) =
        conclude_sound (map decision_of ledger) st (rw same at h2) approved in
      record {
        not_denied = open';
        not_expired = early;
        attested = attested;
        unanimous = unanimous;
        enough = omega (arith, enough, length-decisions ledger);
        distinct = distinct;
        groups = groups;
      }
