-- ===== src/Remediation/Severity.antt =====
-- src/paic/remediation/policy.py: the risk of actions and the approvals that it asks for.
use probabilistic_ai_inciden.Base.{
  ℕ, ◌+◌, List, [], ◌∷◌, min, leb, ltb, string_eq, if◌then◌else◌, Result, ok, err,
}
use probabilistic_ai_inciden.Remediation.Models.{
  BlastRadius, single_instance, single_service, multi_service, region, global, RiskLevel, low,
  medium, high, critical, ActionType, deployment_rollback, feature_flag_set, configuration_restore,
  RemediationAction, action_base, action_type, action_type_eq, bool_eq,
}
use probabilistic_ai_inciden.Remediation.Models.Plan.{plan_status_eq}
use probabilistic_ai_inciden.Remediation.Config.{RemediationConfig}

-- `max()` of no action is a `ValueError`; so is a model that does not validate. A `datetime` after
-- its maximum is an `OverflowError`.
pub data PolicyError : Type 0 where
  empty_sequence date_overflow invalid_model invalid_hash inconsistent_status : PolicyError

-- `_BLAST_ORDER`
unfoldable pub blast_order : BlastRadius → ℕ
blast_order single_instance = 0
blast_order single_service = 1
blast_order multi_service = 2
blast_order region = 3
blast_order global = 4

-- `_RISK_ORDER`
abbrev pub risk_order : RiskLevel → ℕ
risk_order low = 0
risk_order medium = 1
risk_order high = 2
risk_order critical = 3

unfoldable pub action_score : ActionType → ℕ
action_score feature_flag_set = 0
action_score configuration_restore = 1
action_score deployment_rollback = 2

unfoldable pub radius_escalation : BlastRadius → ℕ
radius_escalation single_instance = 0
radius_escalation single_service = 0
radius_escalation multi_service = 1
radius_escalation region = 2
radius_escalation global = 3

-- `risks[score]`
unfoldable pub risk_at : ℕ → RiskLevel
risk_at n = if leb n 0 then low else if leb n 1 then medium else if leb n 2 then high else critical

-- `_action_risk`
unfoldable pub action_risk : RemediationAction → RiskLevel
unfolding action_score radius_escalation risk_at
action_risk action = risk_at (
    min 3 (action_score (action_type action) + radius_escalation (action_base action).blast_radius))

-- The greater of two risks, the first where they are equal, as Python's `max` has it.
unfoldable pub worse : RiskLevel → RiskLevel → RiskLevel
worse best risk = if ltb (risk_order best) (risk_order risk) then risk else best

unfoldable pub max_risk : RiskLevel → List RemediationAction → RiskLevel
max_risk best [] = best
max_risk best (a ∷ rest) = max_risk (worse best (action_risk a)) rest

-- `_aggregate_risk`
unfoldable pub aggregate_risk : List RemediationAction → Result PolicyError RiskLevel
unfolding max_risk worse
aggregate_risk [] = err empty_sequence
aggregate_risk (a ∷ rest) = ok (max_risk (action_risk a) rest)

-- `_required_approvals`
unfoldable pub required_approvals : RiskLevel → RemediationConfig → ℕ
required_approvals low config = config.approval.low_risk_approvals
required_approvals medium config = config.approval.medium_risk_approvals
required_approvals high config = config.approval.high_risk_approvals
required_approvals critical config = config.approval.high_risk_approvals
