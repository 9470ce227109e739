-- ===== src/Remediation/Approval.antt =====
-- src/paic/remediation/approval.py: attestations and the evaluation of decisions.
pub mod Ledger
pub mod Quorum
use Prim.Native.String.{len}
use probabilistic_ai_inciden.Base.{
  ℕ, zero, suc, ◌+◌, String, Bool, true, false, not, ◌&&◌, ◌||◌, Option, none, some, List, [], ◌∷◌,
  ◌++◌, map, min, leb, ltb, nat_beq, length, find, keep, any, ◌==◌, ◌!=◌, string_eq, nat_eq,
  if◌then◌else◌, Result, ok, err, ◌>>=◌, ◌>>◌, reject_if, or_raise,
}
use probabilistic_ai_inciden.Base.Membership.{has, to_set, is_unique}
use probabilistic_ai_inciden.Base.Sort.{sort_by, sorted, text_le}
use probabilistic_ai_inciden.Remediation.Models.{RiskLevel, high}
use probabilistic_ai_inciden.Remediation.Models.Plan.{
  Instant, Verdict, approve, reject, ApprovalAttestation, ApprovalDecision, LedgerBody,
  ApprovalLedgerRecord, ApprovalStatus, Standing, RemediationPlan, PlanStatus, denied,
  plan_status_eq, risk_level_eq,
}
use probabilistic_ai_inciden.Remediation.Models.Plan
use probabilistic_ai_inciden.Remediation.Config.{
  RemediationConfig, ApproverIdentity, AttestationPayload, Crypto,
}
use probabilistic_ai_inciden.Remediation.Decisions.{
  ApprovalError, unregistered_approver, registry_required, bad_attestation_key, wrong_group,
  nonce_duplicated, key_unavailable, bad_attestation, broken_chain, duplicated_hash,
  bad_decision_hash, bad_record_hash, second_decision, naive_time, other_plan, outside_window,
  future_decision, requester_approval, duplicate_identity, groups_not_distinct, secret_unset,
  secret_too_short, secret_short_attestation, zero_hash, ApprovalLedger, check_record,
  validate_from, validate, last_hash, new_record, has_decided, append,
}

-- `_registered_identity`
unfoldable pub registered_identity : RemediationConfig → String → Option ApproverIdentity
registered_identity config approver_id =
    find (λ (identity : ApproverIdentity). identity.approver_id == approver_id)
      config.approval.approver_registry

-- `_attestation_payload`
abbrev pub attestation_payload : ApprovalDecision → String → String → String → AttestationPayload
attestation_payload decision group key_id nonce = record {
  plan_sha256 = decision.plan_sha256;
  approver_id = decision.approver_id;
  approver_group = group;
  decision = decision.decision;
  decided_at = decision.decided_at;
  nonce = nonce;
  key_id = key_id;
}

-- `attest_decision`; the nonce that the caller leaves out is drawn outside.
unfoldable pub attest_decision :
    Crypto
    → ApprovalDecision
    → RemediationConfig
    → String
    → String
    → Result ApprovalError ApprovalDecision
attest_decision crypto decision config secret nonce = do
  identity ←
      or_raise (registered_identity config decision.approver_id) ApprovalError.unregistered_approver
  reject_if (ltb (len secret) config.approval.minimum_secret_bytes)
      ApprovalError.secret_short_attestation
  ok (record decision {
    approver_group = identity.approver_group;
    attestation = some (record {
      key_id = identity.key_id;
      nonce = nonce;
      signature =
          crypto.attestation_hmac secret
            (attestation_payload decision identity.approver_group identity.key_id nonce);
    });
  })

abbrev is_empty {ℓ} : {A : Type ℓ} → List A → Bool
is_empty [] = true
is_empty (x ∷ xs) = false

-- The tests on an attestation that is there, under the key of its registered identity.
unfoldable pub check_attestation :
    Crypto
    → ApprovalDecision
    → RemediationConfig
    → List String
    → ApproverIdentity
    → ApprovalAttestation
    → Result ApprovalError (List String)
check_attestation crypto decision config seen_nonces identity attestation = do
  reject_if (attestation.key_id != identity.key_id) ApprovalError.bad_attestation_key
  reject_if (decision.approver_group != identity.approver_group) ApprovalError.wrong_group
  reject_if (has seen_nonces attestation.nonce) ApprovalError.nonce_duplicated
  value ← or_raise (crypto.environ identity.key_env) ApprovalError.key_unavailable
  reject_if (ltb (len value) config.approval.minimum_secret_bytes) ApprovalError.key_unavailable
  reject_if
      (attestation.signature
        != crypto.attestation_hmac value (
            attestation_payload decision identity.approver_group identity.key_id attestation.nonce))
      ApprovalError.bad_attestation
  ok (attestation.nonce ∷ seen_nonces)

-- `_verify_attestation`, which returns the nonces that have been seen.
unfoldable pub verify_attestation :
    Crypto → ApprovalDecision → RemediationConfig → List String → Result ApprovalError (List String)
verify_attestation crypto decision config seen_nonces = do
  reject_if (is_empty config.approval.approver_registry) ApprovalError.registry_required
  identity ←
      or_raise (registered_identity config decision.approver_id) ApprovalError.unregistered_approver
  attestation ← or_raise decision.attestation ApprovalError.bad_attestation_key
  check_attestation crypto decision config seen_nonces identity attestation

-- A `datetime` argument, which may lack its offset.
pub data Datetime : Type 0 where
  aware naive : Instant → Datetime

-- The tests of one round of `evaluate_approval`'s loop.
unfoldable pub check_decision :
    RemediationPlan
    → RemediationConfig
    → Instant
    → ApprovalDecision
    → Result ApprovalError (Unit {0})
check_decision plan config at decision = do
  reject_if (decision.plan_sha256 != plan.plan_sha256) ApprovalError.other_plan
  reject_if (ltb decision.decided_at plan.requested_at || leb plan.expires_at decision.decided_at)
      ApprovalError.outside_window
  reject_if (ltb at decision.decided_at) ApprovalError.future_decision
  reject_if
      (not config.approval.allow_requester_approval && decision.approver_id == plan.requested_by)
      ApprovalError.requester_approval
  ok tt

-- The loop, which collects the decisions.
unfoldable pub collect :
    Crypto
    → RemediationPlan
    → RemediationConfig
    → Instant
    → List String
    → ApprovalLedger
    → Result ApprovalError (List ApprovalDecision)
collect crypto plan config at seen_nonces [] = ok []
collect crypto plan config at seen_nonces (r ∷ rest) = do
  seen ← verify_attestation crypto r.decision config seen_nonces
  check_decision plan config at r.decision
  decisions ← collect crypto plan config at seen rest
  ok (r.decision ∷ decisions)

abbrev pub is_approval : ApprovalDecision → Bool
is_approval d = elim d.decision [ approve ↦ true | reject ↦ false ]

abbrev pub approver_of : ApprovalDecision → String
approver_of d = d.approver_id

abbrev pub group_of : ApprovalDecision → String
group_of d = d.approver_group

-- The status that the counts give.
unfoldable pub standing : RemediationPlan → Instant → ℕ → ℕ → Standing
standing plan at approvals rejections =
    if plan.status == denied || ltb 0 rejections
    then Standing.rejected
    else if leb plan.expires_at at
    then Standing.expired
    else if leb plan.required_approvals approvals
    then Standing.approved
    else Standing.pending

-- What `evaluate_approval` does with the decisions that it collected.
unfoldable pub conclude :
    Crypto
    → RemediationPlan
    → RemediationConfig
    → Instant
    → List ApprovalDecision
    → Result ApprovalError ApprovalStatus
conclude crypto plan config at decisions = do
  let approvals = keep is_approval decisions
  let rejections = keep (λ d. not (is_approval d)) decisions
  let approver_ids = map approver_of approvals
  let groups = map group_of approvals
  reject_if (not (is_unique approver_ids)) ApprovalError.duplicate_identity
  reject_if
      (plan.risk_level == high
        && config.approval.require_distinct_groups_for_high_risk
        && ltb (length (to_set groups)) (min plan.required_approvals (length approvals)))
      ApprovalError.groups_not_distinct
  ok (record {
    plan_sha256 = plan.plan_sha256;
    status = standing plan at (length approvals) (length rejections);
    required_approvals = plan.required_approvals;
    approval_count = length approvals;
    rejection_count = length rejections;
    approver_ids = sorted approver_ids;
    approver_groups = sorted groups;
    evaluated_at = at;
    approval_snapshot_sha256 =
        crypto.snapshot_digest
          (sort_by (λ a b. text_le (crypto.decision_text a) (crypto.decision_text b)) decisions);
  })

unfoldable pub evaluate_approval :
    Crypto
    → RemediationPlan
    → ApprovalLedger
    → RemediationConfig
    → Datetime
    → Result ApprovalError ApprovalStatus
evaluate_approval crypto plan ledger config (naive at) = err ApprovalError.naive_time
evaluate_approval crypto plan ledger config (aware at) = do
  records ← validate crypto ledger
  decisions ← collect crypto plan config at [] records
  conclude crypto plan config at decisions

-- `load_approval_secret`, whose argument is the value of the variable `secret_env`
unfoldable pub load_approval_secret :
    Option String → RemediationConfig → Result ApprovalError String
load_approval_secret value config = do
  secret ← or_raise value ApprovalError.secret_unset
  reject_if (ltb (len secret) config.approval.minimum_secret_bytes) ApprovalError.secret_too_short
  ok secret
