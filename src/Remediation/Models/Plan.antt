-- ===== src/Remediation/Models/Plan.antt =====
-- Proposals, plans, approvals, tokens and receipts (src/paic/remediation/models.py). An aware
-- `datetime` is the number of microseconds since a fixed instant.
use probabilistic_ai_inciden.Base.{
  ℕ, String, Bool, ◌&&◌, Option, List, map, ltb, leb, nat_beq, Eq, ◌==◌, string_eq, length,
}
use probabilistic_ai_inciden.Base.Sha256.{is_sha256}
use probabilistic_ai_inciden.Base.Membership.{is_unique}
use probabilistic_ai_inciden.Base.Discrete.{String-discrete, discrete_eq}
use probabilistic_ai_inciden.Remediation.Models.{
  ActionType, RiskLevel, RemediationAction, action_id, action_type, target_id,
}

-- An aware `datetime`.
abbrev pub Instant : Type 0
Instant = ℕ

-- `datetime.max` in UTC, where instants count from `datetime.min` in UTC.
abbrev pub datetime_max : Instant
datetime_max = 315_537_897_599_999_999

pub record RemediationProposal : Type 0 where
  pub remediation_id : String
  pub incident_id : String
  pub investigation_report_sha256 : String
  pub selected_hypothesis_id : String
  pub requested_by : String
  pub requested_at : Instant
  pub summary : String
  pub expected_outcome : String
  pub rollback_trigger : String
  pub actions : List RemediationAction

-- What an action modifies: a tuple of its type and its resource.
abbrev pub Target : Type 0
Target = ActionType × String

abbrev pub target : RemediationAction → Target
target a = (action_type a, target_id a)

unfoldable pub Target-discrete : Discrete Target
Target-discrete = hlevel String-discrete

instance abbrev pub target_eq : Eq Target
target_eq = discrete_eq Target-discrete

-- The bounds of `actions` and `unique_actions`.
unfoldable pub proposal_is_valid : RemediationProposal → Bool
proposal_is_valid p =
    leb 1 (length p.actions)
    && leb (length p.actions) 10
    && is_unique (map action_id p.actions)
    && is_unique (map target p.actions)

pub data Outcome : Type 0 where
  allow deny : Outcome

-- One constructor for each message that `assess_proposal` adds to the list of reasons.
pub data Reason : Type 0 where
  not_concluded unbound_report incident_mismatch hypothesis_differs : Reason
  hypothesis_missing low_posterior insufficient_support low_confidence : Reason
  low_margin high_entropy too_many_actions critical_denied satisfied : Reason
  type_not_allowed : ActionType → Reason
  radius_exceeded unobserved_evidence unsupported_evidence : String → Reason
  unknown_resource : String → String → Reason
  wrong_resource_kind stale_precondition unavailable_target : ActionType → String → Reason

pub record PolicyDecision : Type 0 where
  pub outcome : Outcome
  pub reasons : List Reason
  pub risk_level : RiskLevel
  pub required_approvals : ℕ

pub data PlanStatus : Type 0 where
  awaiting_approval denied : PlanStatus

-- A plan without its hash.
pub record PlanBody : Type 0 where
  pub remediation_id : String
  pub incident_id : String
  pub investigation_report_sha256 : String
  pub investigation_manifest_sha256 : String
  pub control_state_manifest_sha256 : String
  pub source_manifest_hashes : List (String × String)
  pub selected_hypothesis_id : String
  pub requested_by : String
  pub requested_at : Instant
  pub expires_at : Instant
  pub summary : String
  pub expected_outcome : String
  pub rollback_trigger : String
  pub actions : List RemediationAction
  pub risk_level : RiskLevel
  pub required_approvals : ℕ
  pub status : PlanStatus
  pub policy_decision : PolicyDecision
  pub proposal_sha256 : String

pub record RemediationPlan : Type 0 where
  pub body : PlanBody
  pub open body use *
  pub plan_sha256 : String

-- `"awaiting_approval" if outcome == "allow" else "denied"`
abbrev pub expected_status : Outcome → PlanStatus
expected_status allow = awaiting_approval
expected_status deny = denied

unfoldable pub PlanStatus-discrete : Discrete PlanStatus
PlanStatus-discrete = hlevel

instance abbrev pub plan_status_eq : Eq PlanStatus
plan_status_eq = discrete_eq PlanStatus-discrete

unfoldable pub RiskLevel-discrete : Discrete RiskLevel
RiskLevel-discrete = hlevel

instance abbrev pub risk_level_eq : Eq RiskLevel
risk_level_eq = discrete_eq RiskLevel-discrete

-- The bounds of the plan's and its decision's fields, the pattern of the hashes that are neither
-- digests nor fields of a model that is valid already, and `validate_status`.
unfoldable pub plan_is_valid : PlanBody → Bool
plan_is_valid p =
    is_sha256 p.investigation_manifest_sha256
    && is_sha256 p.control_state_manifest_sha256
    && ltb p.requested_at p.expires_at
    && p.status == expected_status p.policy_decision.outcome
    && p.risk_level == p.policy_decision.risk_level
    && nat_beq p.required_approvals p.policy_decision.required_approvals
    && leb p.required_approvals 10
    && leb 1 (length p.policy_decision.reasons)
    && leb (length p.policy_decision.reasons) 100

pub data Verdict : Type 0 where
  approve reject : Verdict

pub record ApprovalAttestation : Type 0 where
  pub key_id : String
  pub nonce : String
  pub signature : String

pub record ApprovalDecision : Type 0 where
  pub plan_sha256 : String
  pub approver_id : String
  pub approver_group : String
  pub decision : Verdict
  pub reason : String
  pub decided_at : Instant
  pub attestation : Option ApprovalAttestation

-- A ledger record without its hash.
pub record LedgerBody : Type 0 where
  pub sequence : ℕ
  pub previous_record_sha256 : String
  pub decision : ApprovalDecision
  pub decision_sha256 : String

pub record ApprovalLedgerRecord : Type 0 where
  pub body : LedgerBody
  pub open body use *
  pub record_sha256 : String

pub data Standing : Type 0 where
  pending approved rejected expired : Standing

pub record ApprovalStatus : Type 0 where
  pub plan_sha256 : String
  pub status : Standing
  pub required_approvals : ℕ
  pub approval_count : ℕ
  pub rejection_count : ℕ
  pub approver_ids : List String
  pub approver_groups : List String
  pub evaluated_at : Instant
  pub approval_snapshot_sha256 : String

pub record ApprovalTokenClaims : Type 0 where
  pub token_id : String
  pub plan_sha256 : String
  pub incident_id : String
  pub action_ids : List String
  pub approval_snapshot_sha256 : String
  pub issued_at : Instant
  pub expires_at : Instant
  pub nonce : String

-- The bounds of `action_ids` and `valid_window`.
unfoldable pub claims_are_valid : ApprovalTokenClaims → Bool
claims_are_valid c =
    leb 1 (length c.action_ids)
    && leb (length c.action_ids) 10
    && ltb c.issued_at c.expires_at
    && is_unique c.action_ids

pub record ExecutionRequest : Type 0 where
  pub execution_id : String
  pub executed_by : String
  pub executed_at : Instant

pub record ActionExecutionReceipt : Type 0 where
  pub action_id : String
  pub action_type : ActionType
  pub resource_id : String
  pub before_sha256 : String
  pub after_sha256 : String
  pub inverse_action : RemediationAction

-- An execution receipt without its hash.
pub record ReceiptBody : Type 0 where
  pub execution_id : String
  pub remediation_id : String
  pub incident_id : String
  pub executed_by : String
  pub executed_at : Instant
  pub plan_sha256 : String
  pub approval_snapshot_sha256 : String
  pub token_sha256 : String
  pub token_nonce_sha256 : String
  pub before_state_manifest_sha256 : String
  pub after_state_payload_sha256 : String
  pub action_receipts : List ActionExecutionReceipt

pub record ExecutionReceipt : Type 0 where
  pub body : ReceiptBody
  pub open body use *
  pub receipt_sha256 : String

unfoldable pub Receipts-discrete : Discrete (List ActionExecutionReceipt)
Receipts-discrete = hlevel String-discrete

instance abbrev pub receipts_eq : Eq (List ActionExecutionReceipt)
receipts_eq = discrete_eq Receipts-discrete

unfoldable pub Texts-discrete : Discrete (List String)
Texts-discrete = hlevel String-discrete

instance abbrev pub texts_eq : Eq (List String)
texts_eq = discrete_eq Texts-discrete

unfoldable pub Standing-discrete : Discrete Standing
Standing-discrete = hlevel

instance abbrev pub standing_eq : Eq Standing
standing_eq = discrete_eq Standing-discrete

unfoldable pub Verdict-discrete : Discrete Verdict
Verdict-discrete = hlevel

instance abbrev pub verdict_eq : Eq Verdict
verdict_eq = discrete_eq Verdict-discrete
