-- ===== src/Remediation/Policy.antt =====
-- src/paic/remediation/policy.py: the assessment of a proposal, plans.
pub mod Risk
pub mod Gates
pub mod Plans
use probabilistic_ai_inciden.Base.{
  ℕ, ◌+◌, ◌*◌, String, Bool, true, false, not, ◌&&◌, ◌||◌, Option, none, some, List, [], ◌∷◌, ◌++◌,
  min, leb, ltb, length, find, keep, ◌==◌, ◌!=◌, string_eq, if◌then◌else◌, Result, ok, err, ◌>>=◌,
  ◌>>◌, reject_if,
}
use probabilistic_ai_inciden.Base.Membership.{has, is_subset}
use probabilistic_ai_inciden.Investigation.Report.{
  InvestigationReport, ComputedHypothesis, ReportStatus, concluded,
}
use probabilistic_ai_inciden.Remediation.Models.{
  BlastRadius, single_instance, single_service, multi_service, region, global, RiskLevel, low,
  medium, high, critical, ActionType, deployment_rollback, feature_flag_set, configuration_restore,
  ControlResource, deployment, feature_flag, configuration, resource_id, ControlState,
  RemediationAction, rollback_deployment, set_feature_flag, restore_configuration, action_base,
  action_id, action_type, target_id, action_type_eq, bool_eq,
}
use probabilistic_ai_inciden.Remediation.Models.Plan
use probabilistic_ai_inciden.Remediation.Models.Plan.{
  RemediationProposal, PolicyDecision, Reason, Outcome, PlanBody, RemediationPlan, datetime_max,
  plan_is_valid, expected_status, plan_status_eq,
}
use probabilistic_ai_inciden.Remediation.Config.{RemediationConfig, Crypto}
use probabilistic_ai_inciden.Remediation.Severity.{
  PolicyError, empty_sequence, date_overflow, invalid_model, invalid_hash, inconsistent_status,
  blast_order, risk_order, action_score, radius_escalation, risk_at, action_risk, worse, max_risk,
  aggregate_risk, required_approvals,
}

-- `_resource_index(state).get(id)`: the dictionary keeps the last resource of an id.
unfoldable pub resource_at : List ControlResource → String → Option ControlResource
resource_at [] id = none
resource_at (r ∷ rest) id = elim (resource_at rest id) [
  | some later ↦ some later
  | none ↦ if resource_id r == id then some r else none
]

abbrev pub reason_if : Bool → Reason → List Reason
reason_if true r = r ∷ []
reason_if false r = []

-- `_validate_action_state`
unfoldable pub validate_action_state : RemediationAction → Option ControlResource → Option Reason
validate_action_state action none =
    some (Reason.unknown_resource (action_id action) (target_id action))
validate_action_state (rollback_deployment a) (some (deployment r)) =
    if r.current_revision != a.expected_current_revision
    then some (Reason.stale_precondition deployment_rollback a.action_id)
    else if not (has r.available_revisions a.target_revision)
    then some (Reason.unavailable_target deployment_rollback a.action_id)
    else none
validate_action_state (set_feature_flag a) (some (feature_flag r)) =
    if r.enabled != a.expected_enabled
    then some (Reason.stale_precondition feature_flag_set a.action_id)
    else none
validate_action_state (restore_configuration a) (some (configuration r)) =
    if r.current_version != a.expected_current_version
    then some (Reason.stale_precondition configuration_restore a.action_id)
    else if not (has r.available_versions a.target_version)
    then some (Reason.unavailable_target configuration_restore a.action_id)
    else none
validate_action_state action (some _) =
    some (Reason.wrong_resource_kind (action_type action) (action_id action))

-- `item.hypothesis_id == report.selected_hypothesis_id`, where the latter may be `None`
abbrev pub is_selected : Option String → String → Bool
is_selected none id = false
is_selected (some s) id = id == s

-- `_selected_hypothesis`
unfoldable pub selected_hypothesis : InvestigationReport → Option ComputedHypothesis
selected_hypothesis report =
    find (λ item. is_selected report.selected_hypothesis_id item.hypothesis_id) report.hypotheses

abbrev pub is_concluded : ReportStatus → Bool
is_concluded concluded = true
is_concluded _ = false

abbrev pub is_critical : RiskLevel → Bool
is_critical critical = true
is_critical _ = false

unfoldable pub hypothesis_reasons : Option ComputedHypothesis → RemediationConfig → List Reason
hypothesis_reasons none config = Reason.hypothesis_missing ∷ []
hypothesis_reasons (some selected) config =
    reason_if
      (ltb selected.posterior_probability config.investigation_gate.minimum_selected_posterior)
      Reason.low_posterior
    ++ reason_if
        (ltb (length selected.supporting_evidence_ids)
          config.investigation_gate.minimum_supporting_evidence)
        Reason.insufficient_support

-- The reasons of `assess_proposal` above its loop, in order.
unfoldable pub report_reasons :
    InvestigationReport → ControlState → RemediationProposal → RemediationConfig → List Reason
unfolding hypothesis_reasons
report_reasons report state proposal config =
    reason_if (not (is_concluded report.status)) Reason.not_concluded
    ++ (reason_if (report.report_sha256 != proposal.investigation_report_sha256)
          Reason.unbound_report
        ++ (reason_if
              (report.incident_id != proposal.incident_id
                || state.incident_id != proposal.incident_id)
              Reason.incident_mismatch
            ++ (reason_if
                  (not (is_selected report.selected_hypothesis_id proposal.selected_hypothesis_id))
                  Reason.hypothesis_differs
                ++ (hypothesis_reasons (selected_hypothesis report) config
                    ++ (reason_if
                          (ltb report.confidence config.investigation_gate.minimum_confidence)
                          Reason.low_confidence
                        ++ (reason_if
                              (ltb report.posterior_margin
                                config.investigation_gate.minimum_posterior_margin)
                              Reason.low_margin
                            ++ (reason_if
                                  (ltb config.investigation_gate.maximum_normalized_entropy
                                    report.normalized_entropy)
                                  Reason.high_entropy
                                ++ reason_if
                                    (ltb config.remediation.maximum_actions
                                      (length proposal.actions))
                                    Reason.too_many_actions)))))))

-- `set(selected.supporting_evidence_ids if selected else [])`
abbrev pub allowed_evidence : Option ComputedHypothesis → List String
allowed_evidence none = []
allowed_evidence (some selected) = selected.supporting_evidence_ids

abbrev pub state_issue : Option Reason → List Reason
state_issue none = []
state_issue (some r) = r ∷ []

-- The reasons of one round of the loop.
unfoldable pub action_reasons :
    InvestigationReport → ControlState → RemediationConfig → RemediationAction → List Reason
action_reasons report state config action =
    reason_if (not (has config.remediation.allowed_action_types (action_type action)))
      (Reason.type_not_allowed (action_type action))
    ++ (reason_if
          (ltb (blast_order config.remediation.maximum_blast_radius)
            (blast_order (action_base action).blast_radius))
          (Reason.radius_exceeded (action_id action))
        ++ (reason_if
              (not
                (is_subset (action_base action).evidence_ids report.observed_evidence_record_ids))
              (Reason.unobserved_evidence (action_id action))
            ++ (reason_if
                  (not (
                    is_subset (action_base action).evidence_ids
                      (allowed_evidence (selected_hypothesis report))))
                  (Reason.unsupported_evidence (action_id action))
                ++ state_issue (
                    validate_action_state action
                      (resource_at state.resources (target_id action))))))

unfoldable pub loop_reasons :
    InvestigationReport → ControlState → RemediationConfig → List RemediationAction → List Reason
loop_reasons report state config [] = []
loop_reasons report state config (a ∷ rest) =
    action_reasons report state config a ++ loop_reasons report state config rest

-- `outcome` and the final list of reasons
abbrev pub decide : List Reason → RiskLevel → ℕ → PolicyDecision
decide [] risk required = record {
  outcome = Outcome.allow;
  reasons = Reason.satisfied ∷ [];
  risk_level = risk;
  required_approvals = required;
}
decide (r ∷ rest) risk required = record {
  outcome = Outcome.deny;
  reasons = r ∷ rest;
  risk_level = risk;
  required_approvals = required;
}

-- The whole list of reasons that a proposal is denied for.
unfoldable pub all_reasons :
    InvestigationReport
    → ControlState
    → RemediationProposal
    → RemediationConfig
    → RiskLevel
    → List Reason
all_reasons report state proposal config risk =
    report_reasons report state proposal config
    ++ (loop_reasons report state config proposal.actions
        ++ reason_if (is_critical risk && config.remediation.deny_critical_risk)
            Reason.critical_denied)

unfoldable pub assess_proposal :
    InvestigationReport
    → ControlState
    → RemediationProposal
    → RemediationConfig
    → Result PolicyError PolicyDecision
assess_proposal report state proposal config = do
  risk ← aggregate_risk proposal.actions
  ok (decide (all_reasons report state proposal config risk) risk (required_approvals risk config))

-- `timedelta(minutes=n)`, in microseconds
abbrev pub minutes : ℕ → ℕ
minutes n = n * 60_000_000

-- The values of `build_plan`.
unfoldable pub plan_body :
    Crypto
    → InvestigationReport
    → RemediationProposal
    → RemediationConfig
    → String
    → String
    → PolicyDecision
    → PlanBody
plan_body crypto report proposal config investigation_manifest control_manifest decision = record {
  remediation_id = proposal.remediation_id;
  incident_id = proposal.incident_id;
  investigation_report_sha256 = proposal.investigation_report_sha256;
  investigation_manifest_sha256 = investigation_manifest;
  control_state_manifest_sha256 = control_manifest;
  source_manifest_hashes = report.source_manifest_hashes;
  selected_hypothesis_id = proposal.selected_hypothesis_id;
  requested_by = proposal.requested_by;
  requested_at = proposal.requested_at;
  expires_at = proposal.requested_at + minutes config.approval.plan_ttl_minutes;
  summary = proposal.summary;
  expected_outcome = proposal.expected_outcome;
  rollback_trigger = proposal.rollback_trigger;
  actions = proposal.actions;
  risk_level = decision.risk_level;
  required_approvals = decision.required_approvals;
  status = expected_status decision.outcome;
  policy_decision = decision;
  proposal_sha256 = crypto.proposal_digest proposal;
}

unfoldable pub build_plan :
    Crypto
    → InvestigationReport
    → ControlState
    → RemediationProposal
    → RemediationConfig
    → String
    → String
    → Result PolicyError RemediationPlan
unfolding plan_body
build_plan crypto report state proposal config investigation_manifest control_manifest = do
  decision ← assess_proposal report state proposal config
  reject_if (ltb datetime_max (proposal.requested_at + minutes config.approval.plan_ttl_minutes))
      date_overflow
  let body =
      plan_body crypto report proposal config investigation_manifest control_manifest decision
  reject_if (not (plan_is_valid body)) invalid_model
  ok (record { body = body; plan_sha256 = crypto.plan_digest body })

unfoldable pub verify_plan : Crypto → RemediationPlan → Result PolicyError (Unit {0})
verify_plan crypto plan = do
  reject_if (crypto.plan_digest plan.body != plan.plan_sha256) invalid_hash
  reject_if (plan.status != expected_status plan.policy_decision.outcome) inconsistent_status
  ok tt
