-- ===== src/Recovery/Samples.antt =====
-- Sample values of the models of src/paic/recovery, for the examples.
use Prim.Native.String.{◌++◌ as text_append}
use probabilistic_ai_inciden.Base.{ℕ, String, Bool, true, false, none, some, [], ◌∷◌}
use probabilistic_ai_inciden.Recovery.Models.{
  primary, guardrail, RecoveryDecision, LifecycleStatus, RecoveryConfig, RecoveryMetricEvaluation,
  RecoveryReport, RecoveryLifecycleState, Digests,
}
use probabilistic_ai_inciden.Recovery.Decision.{ObservationBinding}

abbrev pub sample_digests : Digests
sample_digests = record {
  report_digest = λ r. text_append "report:" r.observation_set_id;
  config_digest = λ c. text_append "config:" c.recovery_id;
}

abbrev pub sample_config : RecoveryConfig
sample_config = record {
  recovery_id = "rec-1";
  incident_id = "inc-1";
  alpha = 5;
  scale_floor = 1;
  reopen_after_consecutive_failures = 2;
  immediate_reopen_on_severe_guardrail = true;
  metrics = [];
}

abbrev pub conversion : RecoveryDecision → RecoveryMetricEvaluation
conversion status = record {
  metric_id = "conversion";
  cohort = "overall";
  role = primary;
  status = status;
  baseline_count = 24;
  post_count = 6;
  sustain_count = 3;
  severe_breach = false;
}

abbrev pub latency : Bool → RecoveryMetricEvaluation
latency severe = record {
  metric_id = "latency";
  cohort = "overall";
  role = guardrail;
  status = RecoveryDecision.recovered;
  baseline_count = 24;
  post_count = 6;
  sustain_count = 3;
  severe_breach = severe;
}

abbrev pub binding : String → ℕ → ObservationBinding
binding id at = record {
  observation_set_id = id;
  execution_receipt_sha256 = "receipt-1";
  execution_manifest_sha256 = "manifest-1";
  observation_set_sha256 = "observations";
  observation_manifest_sha256 = "observation-manifest";
  evaluated_at = at;
}

abbrev pub report_with : RecoveryDecision → Bool → String → ℕ → RecoveryReport
report_with decision severe id at = record {
  body = record {
    recovery_id = "rec-1";
    incident_id = "inc-1";
    observation_set_id = id;
    execution_receipt_sha256 = "receipt-1";
    execution_manifest_sha256 = "manifest-1";
    config_sha256 = "config:rec-1";
    observation_set_sha256 = "observations";
    observation_manifest_sha256 = "observation-manifest";
    evaluated_at = at;
    decision = decision;
    primary_recovered = 0;
    primary_total = 1;
    guardrails_healthy = 1;
    guardrail_total = 1;
    severe_guardrail_breach = severe;
    metric_evaluations = conversion decision ∷ latency severe ∷ [];
  };
  report_sha256 = text_append "report:" id;
}

abbrev pub fresh_state : RecoveryLifecycleState
fresh_state = record {
  recovery_id = "rec-1";
  incident_id = "inc-1";
  execution_receipt_sha256 = "receipt-1";
  execution_manifest_sha256 = "manifest-1";
  config_sha256 = "config:rec-1";
  generation = 0;
  status = LifecycleStatus.monitoring;
  ever_recovered = false;
  consecutive_failed_evaluations = 0;
  applied_report_sha256s = [];
  last_report_sha256 = none;
  last_evaluated_at = none;
}

abbrev pub recovered_state : RecoveryLifecycleState
recovered_state = record fresh_state {
  generation = 1;
  status = LifecycleStatus.recovered;
  ever_recovered = true;
  applied_report_sha256s = "report:a" ∷ [];
  last_report_sha256 = some "report:a";
  last_evaluated_at = some 100;
}

abbrev pub first_failure : RecoveryReport
first_failure = report_with RecoveryDecision.failed false "b" 200

abbrev pub second_failure : RecoveryReport
second_failure = report_with RecoveryDecision.recovering false "c" 300

abbrev pub worse_state : RecoveryLifecycleState
worse_state = record recovered_state {
  generation = 2;
  status = LifecycleStatus.monitoring;
  consecutive_failed_evaluations = 1;
  applied_report_sha256s = "report:a" ∷ "report:b" ∷ [];
  last_report_sha256 = some "report:b";
  last_evaluated_at = some 200;
}

abbrev pub reopened_state : RecoveryLifecycleState
reopened_state = record recovered_state {
  generation = 3;
  status = LifecycleStatus.reopened;
  consecutive_failed_evaluations = 2;
  applied_report_sha256s = "report:a" ∷ "report:b" ∷ "report:c" ∷ [];
  last_report_sha256 = some "report:c";
  last_evaluated_at = some 300;
}

abbrev pub later_state : RecoveryLifecycleState
later_state = record reopened_state {
  generation = 4;
  applied_report_sha256s = "report:a" ∷ "report:b" ∷ "report:c" ∷ "report:d" ∷ [];
  last_report_sha256 = some "report:d";
  last_evaluated_at = some 400;
}
