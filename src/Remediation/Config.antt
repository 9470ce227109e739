-- ===== src/Remediation/Config.antt =====
-- The configuration of remediation (src/paic/remediation/config.py) and the digests of its models.
use probabilistic_ai_inciden.Base.{ℕ, String, Bool, ◌&&◌, Option, List, map, leb, string_eq, length}
use probabilistic_ai_inciden.Base.Membership.{is_unique}
use probabilistic_ai_inciden.Investigation.Report.{Double}
use probabilistic_ai_inciden.Remediation.Models.{
  ActionType, BlastRadius, action_type_eq, ControlResource, ControlState,
}
use probabilistic_ai_inciden.Remediation.Models.Plan.{
  Instant, Verdict, RemediationProposal, PlanBody, ApprovalDecision, LedgerBody, ReceiptBody,
  ApprovalTokenClaims,
}

pub record InvestigationGate : Type 0 where
  pub minimum_confidence : Double
  pub minimum_selected_posterior : Double
  pub minimum_posterior_margin : Double
  pub maximum_normalized_entropy : Double
  pub minimum_supporting_evidence : ℕ

pub record ApproverIdentity : Type 0 where
  pub approver_id : String
  pub approver_group : String
  pub key_id : String
  pub key_env : String

pub record ApprovalPolicy : Type 0 where
  pub plan_ttl_minutes : ℕ
  pub token_ttl_minutes : ℕ
  pub minimum_secret_bytes : ℕ
  pub allow_requester_approval : Bool
  pub require_distinct_groups_for_high_risk : Bool
  pub low_risk_approvals : ℕ
  pub medium_risk_approvals : ℕ
  pub high_risk_approvals : ℕ
  pub approver_registry : List ApproverIdentity

pub record RemediationPolicy : Type 0 where
  pub allowed_action_types : List ActionType
  pub maximum_blast_radius : BlastRadius
  pub maximum_actions : ℕ
  pub deny_critical_risk : Bool

pub record RemediationConfig : Type 0 where
  pub investigation_gate : InvestigationGate
  pub remediation : RemediationPolicy
  pub approval : ApprovalPolicy

-- The bounds of the numbers, `unique_approvers` and `unique_actions`.
unfoldable pub config_is_valid : RemediationConfig → Bool
config_is_valid c =
    leb 1 c.approval.plan_ttl_minutes
    && leb c.approval.plan_ttl_minutes 1440
    && leb 1 c.approval.token_ttl_minutes
    && leb c.approval.token_ttl_minutes 120
    && leb 1 c.approval.low_risk_approvals
    && leb c.approval.low_risk_approvals 10
    && leb 1 c.approval.medium_risk_approvals
    && leb c.approval.medium_risk_approvals 10
    && leb 2 c.approval.high_risk_approvals
    && leb c.approval.high_risk_approvals 10
    && leb 1 (length c.approval.approver_registry)
    && is_unique (map (λ (i : ApproverIdentity). i.approver_id) c.approval.approver_registry)
    && is_unique (map (λ (i : ApproverIdentity). i.key_id) c.approval.approver_registry)
    && leb 1 (length c.remediation.allowed_action_types)
    && is_unique c.remediation.allowed_action_types

-- The fields of the text that an attestation signs.
pub record AttestationPayload : Type 0 where
  pub plan_sha256 : String
  pub approver_id : String
  pub approver_group : String
  pub decision : Verdict
  pub decided_at : Instant
  pub nonce : String
  pub key_id : String

-- `digest` of tools/ledger.py is SHA-256 of the JSON text of a model's dump. The dump is the
-- validation library's, so the digest of each kind of model is a parameter. So are the keyed hash,
-- the JSON text of a token's claims with its reading back, and the process environment. A text
-- stands for its UTF-8 bytes where a key is wanted; other bytes are lists of numbers.
pub record Crypto : Type 0 where
  pub proposal_digest : RemediationProposal → String
  pub plan_digest : PlanBody → String
  pub decision_digest : ApprovalDecision → String
  -- `canonical(decision.model_dump(mode="json"))`
  pub decision_text : ApprovalDecision → String
  pub record_digest : LedgerBody → String
  pub snapshot_digest : List ApprovalDecision → String
  pub resource_digest : ControlResource → String
  pub state_digest : ControlState → String
  pub receipt_digest : ReceiptBody → String
  -- `hashlib.sha256(text.encode("utf-8")).hexdigest()`
  pub sha256 : String → String
  -- the hexadecimal HMAC of an attestation's text under a key
  pub attestation_hmac : String → AttestationPayload → String
  -- `canonical(claims.model_dump(mode="json")).encode("utf-8")`
  pub claims_bytes : ApprovalTokenClaims → List ℕ
  -- `json.loads` of the bytes, as the fields of the claims, with none twice
  pub read_claims : List ℕ → Option ApprovalTokenClaims
  -- the HMAC of a payload under a key, all bytes
  pub token_hmac : List ℕ → List ℕ → List ℕ
  -- the hexadecimal SHA-256 of a token's text
  pub token_sha256 : List ℕ → String
  -- `os.environ.get`
  pub environ : String → Option String
