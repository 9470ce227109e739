-- ===== src/Remediation/Samples.antt =====
-- Sample values of the models of src/paic/remediation, for the examples.
use Prim.Native.String.{◌++◌ as text_append}
use probabilistic_ai_inciden.Base.{ℕ, ◌+◌, String, true, false, some, List, [], ◌∷◌, length}
use probabilistic_ai_inciden.Investigation.Report.{InvestigationReport, concluded}
use probabilistic_ai_inciden.Remediation.Models.{
  single_service, multi_service, low, feature_flag_set, deployment_rollback, ControlResource,
  deployment, feature_flag, resource_id, ControlState, ActionBase, RemediationAction,
  set_feature_flag,
}
use probabilistic_ai_inciden.Remediation.Models.Plan.{
  RemediationProposal, RemediationPlan, PolicyDecision, allow, awaiting_approval, Reason, approve,
  ApprovalDecision, ApprovalLedgerRecord, ApprovalStatus, Standing, ApprovalTokenClaims,
  ExecutionRequest,
}
use probabilistic_ai_inciden.Remediation.Config.{RemediationConfig, Crypto}

abbrev pub sample_claims : ApprovalTokenClaims
sample_claims = record {
  token_id = "token-1";
  plan_sha256 = "plan:fix-checkout";
  incident_id = "inc-1";
  action_ids = "disable-flag" ∷ [];
  approval_snapshot_sha256 = "snapshot:plan:fix-checkout";
  issued_at = 2000;
  expires_at = 60_002_000;
  nonce = "n-1";
}

abbrev first_decision : List ApprovalDecision → String
first_decision [] = "none"
first_decision (d ∷ ds) = d.plan_sha256

abbrev pub sample_crypto : Crypto
sample_crypto = record {
  proposal_digest = λ p. text_append "proposal:" p.remediation_id;
  plan_digest = λ p. text_append "plan:" p.remediation_id;
  decision_digest = λ d. text_append "decision:" d.approver_id;
  decision_text = λ d. d.approver_id;
  record_digest = λ b. text_append "record:" b.decision_sha256;
  snapshot_digest = λ ds. text_append "snapshot:" (first_decision ds);
  resource_digest = λ r. text_append "resource:" (resource_id r);
  state_digest = λ s. text_append "state:" s.state_id;
  receipt_digest = λ r. text_append "receipt:" r.execution_id;
  sha256 = λ t. text_append "sha256:" t;
  attestation_hmac = λ key p. text_append key p.approver_id;
  claims_bytes = λ c. 1 ∷ 2 ∷ (length c.action_ids + 2) ∷ [];
  read_claims = λ bytes. some sample_claims;
  token_hmac = λ key payload. (length payload + 4) ∷ [];
  token_sha256 = λ token. "sha256:token";
  environ = λ name. some (text_append "key-of-" name);
}

abbrev pub sample_config : RemediationConfig
sample_config = record {
  investigation_gate = record {
    minimum_confidence = 8;
    minimum_selected_posterior = 7;
    minimum_posterior_margin = 2;
    maximum_normalized_entropy = 5;
    minimum_supporting_evidence = 1;
  };
  remediation = record {
    allowed_action_types = feature_flag_set ∷ deployment_rollback ∷ [];
    maximum_blast_radius = multi_service;
    maximum_actions = 3;
    deny_critical_risk = true;
  };
  approval = record {
    plan_ttl_minutes = 60;
    token_ttl_minutes = 1;
    minimum_secret_bytes = 1;
    allow_requester_approval = false;
    require_distinct_groups_for_high_risk = true;
    low_risk_approvals = 1;
    medium_risk_approvals = 1;
    high_risk_approvals = 2;
    approver_registry =
        record { approver_id = "alice"; approver_group = "sre"; key_id = "k1"; key_env = "A" }
        ∷ record { approver_id = "bob"; approver_group = "payments"; key_id = "k2"; key_env = "B" }
        ∷ [];
  };
}

abbrev pub sample_base : ActionBase
sample_base = record {
  action_id = "disable-flag";
  blast_radius = single_service;
  evidence_ids = "ev-1" ∷ [];
  justification = "The flag started the incident.";
}

abbrev pub sample_action : RemediationAction
sample_action = set_feature_flag (record {
  base = sample_base;
  resource_id = "new-checkout";
  expected_enabled = true;
  desired_enabled = false;
})

abbrev pub sample_resources : List ControlResource
sample_resources =
    deployment (record {
      resource_id = "checkout";
      current_revision = "r2";
      available_revisions = "r1" ∷ "r2" ∷ [];
    })
    ∷ feature_flag (record { resource_id = "new-checkout"; enabled = true })
    ∷ []

abbrev pub sample_state : ControlState
sample_state = record {
  state_id = "state-1";
  incident_id = "inc-1";
  generation = 4;
  resources = sample_resources;
  consumed_token_nonce_hashes = "sha256:n-0" ∷ [];
  executed_plan_hashes = "plan:older" ∷ [];
}

abbrev pub sample_report : InvestigationReport
sample_report = record {
  incident_id = "inc-1";
  status = concluded;
  selected_hypothesis_id = some "h-1";
  confidence = 9;
  normalized_entropy = 3;
  posterior_margin = 6;
  hypotheses =
      record {
        hypothesis_id = "h-1";
        prior_probability = 5;
        posterior_probability = 8;
        supporting_evidence_ids = "ev-1" ∷ [];
        contradicting_evidence_ids = [];
      }
      ∷ [];
  observed_evidence_record_ids = "ev-1" ∷ "ev-2" ∷ [];
  source_manifest_hashes = [];
  report_sha256 = "report-1";
}

abbrev pub sample_proposal : RemediationProposal
sample_proposal = record {
  remediation_id = "fix-checkout";
  incident_id = "inc-1";
  investigation_report_sha256 = "report-1";
  selected_hypothesis_id = "h-1";
  requested_by = "carol";
  requested_at = 1000;
  summary = "Disable the flag.";
  expected_outcome = "Conversion recovers.";
  rollback_trigger = "Conversion falls.";
  actions = sample_action ∷ [];
}

abbrev pub sample_policy_decision : PolicyDecision
sample_policy_decision = record {
  outcome = allow;
  reasons = Reason.satisfied ∷ [];
  risk_level = low;
  required_approvals = 1;
}

abbrev pub sample_plan : RemediationPlan
sample_plan = record {
  body = record {
    remediation_id = "fix-checkout";
    incident_id = "inc-1";
    investigation_report_sha256 = "report-1";
    investigation_manifest_sha256 = "manifest-1";
    control_state_manifest_sha256 = "control-1";
    source_manifest_hashes = [];
    selected_hypothesis_id = "h-1";
    requested_by = "carol";
    requested_at = 1000;
    expires_at = 3_600_001_000;
    summary = "Disable the flag.";
    expected_outcome = "Conversion recovers.";
    rollback_trigger = "Conversion falls.";
    actions = sample_action ∷ [];
    risk_level = low;
    required_approvals = 1;
    status = awaiting_approval;
    policy_decision = sample_policy_decision;
    proposal_sha256 = "proposal:fix-checkout";
  };
  plan_sha256 = "plan:fix-checkout";
}

abbrev pub sample_status : ApprovalStatus
sample_status = record {
  plan_sha256 = "plan:fix-checkout";
  status = Standing.approved;
  required_approvals = 1;
  approval_count = 1;
  rejection_count = 0;
  approver_ids = "alice" ∷ [];
  approver_groups = "sre" ∷ [];
  evaluated_at = 2000;
  approval_snapshot_sha256 = "snapshot:plan:fix-checkout";
}

abbrev pub sample_request : ExecutionRequest
sample_request = record { execution_id = "exec-1"; executed_by = "dave"; executed_at = 3000 }

-- `AQID.Bw`
abbrev pub sample_token : List ℕ
sample_token = b'A' ∷ b'Q' ∷ b'I' ∷ b'D' ∷ b'.' ∷ b'B' ∷ b'w' ∷ []

abbrev pub sample_secret : List ℕ
sample_secret = 1 ∷ []

abbrev pub decision_of_alice : ApprovalDecision
decision_of_alice = record {
  plan_sha256 = "plan:fix-checkout";
  approver_id = "alice";
  approver_group = "sre";
  decision = approve;
  reason = "The evidence is clear.";
  decided_at = 1500;
  attestation = some (record { key_id = "k1"; nonce = "a-1"; signature = "key-of-Aalice" });
}

abbrev pub decision_of_bob : ApprovalDecision
decision_of_bob = record {
  plan_sha256 = "plan:fix-checkout";
  approver_id = "bob";
  approver_group = "payments";
  decision = approve;
  reason = "The risk is low.";
  decided_at = 1600;
  attestation = some (record { key_id = "k2"; nonce = "b-1"; signature = "key-of-Bbob" });
}

abbrev pub record_of_alice : ApprovalLedgerRecord
record_of_alice = record {
  body = record {
    sequence = 1;
    previous_record_sha256 = "0000000000000000000000000000000000000000000000000000000000000000";
    decision = decision_of_alice;
    decision_sha256 = "decision:alice";
  };
  record_sha256 = "record:decision:alice";
}

abbrev pub record_of_bob : ApprovalLedgerRecord
record_of_bob = record {
  body = record {
    sequence = 2;
    previous_record_sha256 = "record:decision:alice";
    decision = decision_of_bob;
    decision_sha256 = "decision:bob";
  };
  record_sha256 = "record:decision:bob";
}
