-- ===== src/Remediation/Policy/Plans.antt =====
-- `build_plan` and `verify_plan` of policy.py.
use probabilistic_ai_inciden.Base.{◌+◌, ◌<◌, ◌≡◌, ◌↔◌, string_eq, ok}
use probabilistic_ai_inciden.Investigation.Report.{InvestigationReport}
use probabilistic_ai_inciden.Remediation.Models.{ControlState}
use probabilistic_ai_inciden.Remediation.Models.Plan.{
  RemediationProposal, RemediationPlan, awaiting_approval, plan_status_eq, risk_level_eq,
}
use probabilistic_ai_inciden.Remediation.Config.{RemediationConfig, Crypto}
use probabilistic_ai_inciden.Remediation.Policy.Gates.{Authorized}
use probabilistic_ai_inciden.Remediation.Severity.{aggregate_risk, required_approvals}
use probabilistic_ai_inciden.Remediation.Policy.{minutes, verify_plan}

-- What `build_plan` promises of its plan.
pub record Planned (crypto : Crypto) (report : InvestigationReport) (state : ControlState)
    (proposal : RemediationProposal) (config : RemediationConfig) (plan : RemediationPlan)
    : Type 0 where
  pub verified : verify_plan crypto plan ≡ ok tt
  pub awaits_iff : (plan.status ≡ awaiting_approval) ↔ Authorized report state proposal config
  pub same_actions : plan.actions ≡ proposal.actions
  pub window :
      (plan.requested_at < plan.expires_at)
      × (plan.expires_at ≡ proposal.requested_at + minutes config.approval.plan_ttl_minutes)
  pub approvals : plan.required_approvals ≡ required_approvals plan.risk_level config
  pub risk : aggregate_risk proposal.actions ≡ ok plan.risk_level
