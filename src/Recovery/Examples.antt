-- ===== src/Recovery/Examples.antt =====
-- Examples of the theorems about src/paic/recovery, at sample values.
use mathlib.Core.Logic.{◌↔◌}
use probabilistic_ai_inciden.Base.{◌+◌, ◌≡◌, refl, true, false, [], ◌∷◌, ◌⊎◌, arith, ok, err}
use probabilistic_ai_inciden.Base.Membership.{Distinct}
use probabilistic_ai_inciden.Recovery.Models.{
  RecoveryDecision, LifecycleStatus, RecoveryLifecycleState, is_last, lifecycle_is_valid,
}
use probabilistic_ai_inciden.Recovery.Decision.{
  recovery_decision, AllRecovered, CalmGuardrails, recovery_decision-recovered_iff,
}
use probabilistic_ai_inciden.Recovery.Lifecycle.{
  Trigger, invalid_state, judge_regression, judge, check_report, transition_state,
}
use probabilistic_ai_inciden.Recovery.Lifecycle.Transition.{
  Fits, is_premature, transition_state_iff, transition_state-premature,
}
use probabilistic_ai_inciden.Recovery.Lifecycle.Reopening.{MustReopen, transition_state-reopens_iff}
use probabilistic_ai_inciden.Recovery.Lifecycle.History.{
  Applied, none_yet, apply, InOrder, hashes, Applied-once, Applied-reopened, Applied-sustained,
}
use probabilistic_ai_inciden.Recovery.Samples.{
  sample_digests, sample_config, conversion, latency, report_with, fresh_state, recovered_state,
  first_failure, second_failure, worse_state, reopened_state, later_state,
}

recovered_state-valid : lifecycle_is_valid recovered_state ≡ true
unfolding lifecycle_is_valid is_last
recovered_state-valid = refl

fresh_state-valid : lifecycle_is_valid fresh_state ≡ true
unfolding lifecycle_is_valid is_last
fresh_state-valid = refl

first_step :
    transition_state sample_digests recovered_state first_failure sample_config
    ≡ ok (worse_state, Trigger.regression_observed)
unfolding transition_state check_report judge judge_regression lifecycle_is_valid is_last
first_step = refl

second_step :
    transition_state sample_digests worse_state second_failure sample_config
    ≡ ok (reopened_state, Trigger.sustained_recovery_regression)
unfolding transition_state check_report judge judge_regression lifecycle_is_valid is_last
second_step = refl

third_step :
    transition_state sample_digests reopened_state
      (report_with RecoveryDecision.recovered false "d" 400)
      sample_config
    ≡ ok (later_state, Trigger.incident_already_reopened)
unfolding transition_state check_report judge judge_regression lifecycle_is_valid is_last
third_step = refl

two_failures :
    Applied sample_digests sample_config recovered_state
      (second_failure ∷ first_failure ∷ [])
      reopened_state
two_failures =
    apply second_failure (reopened_state, Trigger.sustained_recovery_regression)
      (apply first_failure (worse_state, Trigger.regression_observed) none_yet first_step)
      second_step

transition_state_iff_example :
    ((out : RecoveryLifecycleState × Trigger) × (transition_state sample_digests recovered_state
          first_failure sample_config
        ≡ ok out))
    ↔ (Fits sample_digests recovered_state first_failure sample_config
        × (is_premature recovered_state first_failure sample_config ≡ false))
transition_state_iff_example =
    transition_state_iff sample_digests recovered_state first_failure sample_config
      recovered_state-valid (omega arith)

severe_report-Fits :
    Fits sample_digests fresh_state (report_with RecoveryDecision.failed true "s" 50) sample_config
severe_report-Fits = record {
  own_hash = refl;
  incident = refl;
  execution = refl;
  manifest = refl;
  recovery = refl;
  report_policy = refl;
  policy = refl;
  fresh = refl;
  later = refl;
}

transition_state-premature_example :
    transition_state sample_digests fresh_state
      (report_with RecoveryDecision.failed true "s" 50)
      sample_config
    ≡ err invalid_state
transition_state-premature_example =
    transition_state-premature sample_digests fresh_state
      (report_with RecoveryDecision.failed true "s" 50) sample_config fresh_state-valid
      severe_report-Fits refl

transition_state-reopens_iff_example : (reopened_state.status ≡ LifecycleStatus.reopened) ↔ (
    (worse_state.status ≡ LifecycleStatus.reopened)
    ⊎ MustReopen worse_state second_failure sample_config)
transition_state-reopens_iff_example =
    transition_state-reopens_iff sample_digests worse_state second_failure sample_config
      (reopened_state, Trigger.sustained_recovery_regression) second_step

Applied-once_example :
    Distinct (hashes (second_failure ∷ first_failure ∷ []))
    × InOrder (second_failure ∷ first_failure ∷ [])
    × (reopened_state.generation ≡ recovered_state.generation + 2)
Applied-once_example = Applied-once sample_digests sample_config recovered_state two_failures

Applied-reopened_example : later_state.status ≡ LifecycleStatus.reopened
Applied-reopened_example =
    Applied-reopened sample_digests sample_config reopened_state
      {reports = report_with RecoveryDecision.recovered false "d" 400 ∷ []} {state = later_state}
      (apply (report_with RecoveryDecision.recovered false "d" 400)
        (later_state, Trigger.incident_already_reopened) none_yet third_step)
      refl

Applied-sustained_example : reopened_state.status ≡ LifecycleStatus.reopened
Applied-sustained_example =
    Applied-sustained sample_digests sample_config recovered_state two_failures refl
      (refl, (refl, tt)) (omega arith) (omega arith)

recovery_decision-recovered_iff_example :
    (recovery_decision (conversion RecoveryDecision.recovered ∷ latency false ∷ [])
      ≡ RecoveryDecision.recovered)
    ↔ (AllRecovered (conversion RecoveryDecision.recovered ∷ latency false ∷ [])
        × CalmGuardrails (conversion RecoveryDecision.recovered ∷ latency false ∷ []))
recovery_decision-recovered_iff_example =
    recovery_decision-recovered_iff (conversion RecoveryDecision.recovered ∷ latency false ∷ [])
