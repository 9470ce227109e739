-- ===== src/Remediation/Examples/Policy.antt =====
-- Examples of the theorems about src/paic/remediation/policy.py.
use mathlib.Core.Logic.{◌↔◌}
use Prim.Native.Nat.{◌≤◌}
use probabilistic_ai_inciden.Base.{String, ◌≡◌, refl, true, List, [], ◌∷◌, All, ok}
use probabilistic_ai_inciden.Base.Membership.{In}
use probabilistic_ai_inciden.Remediation.Models.{
  ControlState, RemediationAction, low, ActionType-discrete,
}
use probabilistic_ai_inciden.Remediation.Models.Plan.{
  ActionExecutionReceipt, allow, proposal_is_valid,
}
use probabilistic_ai_inciden.Remediation.Severity.{
  risk_order, risk_at, action_score, radius_escalation, action_risk, max_risk, aggregate_risk,
  required_approvals, blast_order,
}
use probabilistic_ai_inciden.Remediation.Policy.{
  resource_at, validate_action_state, selected_hypothesis, hypothesis_reasons, report_reasons,
  action_reasons, loop_reasons, all_reasons, assess_proposal,
}
use probabilistic_ai_inciden.Remediation.Policy.Risk.{level_of, aggregate_risk_greatest}
use probabilistic_ai_inciden.Remediation.Policy.Gates.{Authorized, assess_proposal-allow_iff}
use probabilistic_ai_inciden.Remediation.Effects.{next_state}
use probabilistic_ai_inciden.Remediation.Executor.Progress.{next_state_total}
use probabilistic_ai_inciden.Remediation.Samples.{
  sample_plan, sample_crypto, sample_report, sample_state, sample_proposal, sample_config,
  sample_action, sample_policy_decision,
}

sample_risk : aggregate_risk (sample_action ∷ []) ≡ ok low
unfolding aggregate_risk max_risk action_risk risk_at action_score radius_escalation
sample_risk = refl

aggregate_risk_greatest_example :
    All (λ a. level_of a ≤ risk_order low) (sample_action ∷ [])
    × ((a : RemediationAction) × In a (sample_action ∷ []) × (level_of a ≡ risk_order low))
aggregate_risk_greatest_example = aggregate_risk_greatest (sample_action ∷ []) low sample_risk

sample_assessment :
    assess_proposal sample_report sample_state sample_proposal sample_config
    ≡ ok sample_policy_decision
unfolding assess_proposal aggregate_risk max_risk action_risk risk_at action_score radius_escalation
    all_reasons report_reasons hypothesis_reasons loop_reasons action_reasons selected_hypothesis
    validate_action_state resource_at blast_order required_approvals ActionType-discrete
sample_assessment = refl

assess_proposal-allow_iff_example :
    (sample_policy_decision.outcome ≡ allow)
    ↔ Authorized sample_report sample_state sample_proposal sample_config
assess_proposal-allow_iff_example =
    assess_proposal-allow_iff sample_report sample_state sample_proposal sample_config
      sample_policy_decision sample_assessment

sample_proposal-valid : proposal_is_valid sample_proposal ≡ true
unfolding proposal_is_valid
sample_proposal-valid = refl

abbrev sample_sha256 : String
sample_sha256 = "0123456789abcdef0123456789abcdef0123456789abcdef0123456789abcdef"

sample-Authorized : Authorized sample_report sample_state sample_proposal sample_config
sample-Authorized =
    (assess_proposal-allow_iff sample_report sample_state sample_proposal sample_config
        sample_policy_decision sample_assessment).0
      refl

next_state_total_example :
    (out : ControlState × List ActionExecutionReceipt) × (next_state sample_crypto sample_state
        sample_plan "sha256:n-1"
      ≡ ok out)
next_state_total_example =
    next_state_total sample_crypto sample_report sample_state sample_proposal sample_config
      sample_plan "sha256:n-1" (refl, (refl, tt)) sample_proposal-valid sample-Authorized refl
