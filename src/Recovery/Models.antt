-- ===== src/Recovery/Models.antt =====
-- The models of recovery (src/paic/recovery/models.py and config.py). An aware `datetime` is the
-- number of microseconds since a fixed instant; the statistics of a metric are not modelled.
use probabilistic_ai_inciden.Base.{
  ℕ, String, Bool, true, false, not, ◌&&◌, Option, none, some, List, [], ◌∷◌, length, leb, nat_beq,
  ◌==◌, Eq, any, keep, string_eq, nat_eq,
}
use probabilistic_ai_inciden.Base.Membership.{is_unique}
use probabilistic_ai_inciden.Base.Discrete.{discrete_eq}
use probabilistic_ai_inciden.Investigation.Report.{Double}
use probabilistic_ai_inciden.Remediation.Models.Plan.{Instant}

pub data MetricRole : Type 0 where
  primary guardrail : MetricRole

pub data HealthyDirection : Type 0 where
  higher_is_better lower_is_better target : HealthyDirection

-- `MetricStatus` and `RecoveryDecision`, which are the same four words.
pub data RecoveryDecision : Type 0 where
  recovered recovering failed insufficient_data : RecoveryDecision

pub data LifecycleStatus : Type 0 where
  monitoring recovered reopened : LifecycleStatus

pub record RecoveryMetricPolicy : Type 0 where
  pub metric_id : String
  pub cohort : String
  pub role : MetricRole
  pub healthy_direction : HealthyDirection
  pub baseline_lookback_periods : ℕ
  pub minimum_baseline_periods : ℕ
  pub minimum_post_periods : ℕ
  pub sustain_periods : ℕ
  pub minimum_sample_size : ℕ
  pub equivalence_margin_relative : Double
  pub equivalence_margin_absolute : Double
  pub minimum_within_band_fraction : Double
  pub minimum_improvement_fraction : Double
  pub severe_robust_z : Double

pub record RecoveryConfig : Type 0 where
  pub recovery_id : String
  pub incident_id : String
  pub alpha : Double
  pub scale_floor : Double
  pub reopen_after_consecutive_failures : ℕ
  pub immediate_reopen_on_severe_guardrail : Bool
  pub metrics : List RecoveryMetricPolicy

-- The evaluation of one metric, without its floating-point statistics and its reason codes.
pub record RecoveryMetricEvaluation : Type 0 where
  pub metric_id : String
  pub cohort : String
  pub role : MetricRole
  pub status : RecoveryDecision
  pub baseline_count : ℕ
  pub post_count : ℕ
  pub sustain_count : ℕ
  pub severe_breach : Bool

-- A report without its hash.
pub record ReportBody : Type 0 where
  pub recovery_id : String
  pub incident_id : String
  pub observation_set_id : String
  pub execution_receipt_sha256 : String
  pub execution_manifest_sha256 : String
  pub config_sha256 : String
  pub observation_set_sha256 : String
  pub observation_manifest_sha256 : String
  pub evaluated_at : Instant
  pub decision : RecoveryDecision
  pub primary_recovered : ℕ
  pub primary_total : ℕ
  pub guardrails_healthy : ℕ
  pub guardrail_total : ℕ
  pub severe_guardrail_breach : Bool
  pub metric_evaluations : List RecoveryMetricEvaluation

pub record RecoveryReport : Type 0 where
  pub body : ReportBody
  pub open body use *
  pub report_sha256 : String

unfoldable pub MetricRole-discrete : Discrete MetricRole
MetricRole-discrete = hlevel

instance abbrev pub metric_role_eq : Eq MetricRole
metric_role_eq = discrete_eq MetricRole-discrete

unfoldable pub RecoveryDecision-discrete : Discrete RecoveryDecision
RecoveryDecision-discrete = hlevel

instance abbrev pub recovery_decision_eq : Eq RecoveryDecision
recovery_decision_eq = discrete_eq RecoveryDecision-discrete

abbrev pub bool_beq : Bool → Bool → Bool
bool_beq true b = b
bool_beq false b = not b

abbrev pub with_role : MetricRole → List RecoveryMetricEvaluation → List RecoveryMetricEvaluation
with_role role = keep (λ (e : RecoveryMetricEvaluation). e.role == role)

-- `item.status == "recovered"`
abbrev pub is_recovered : RecoveryMetricEvaluation → Bool
is_recovered e = e.status == RecoveryDecision.recovered

abbrev pub is_severe : RecoveryMetricEvaluation → Bool
is_severe e = e.severe_breach

-- The bounds of the fields and `validate_counts`.
unfoldable pub report_is_valid : ReportBody → Bool
report_is_valid r =
    leb 1 r.primary_total
    && leb 1 (length r.metric_evaluations)
    && leb (length r.metric_evaluations) 500
    && nat_beq (length (with_role primary r.metric_evaluations)) r.primary_total
    && nat_beq (length (with_role guardrail r.metric_evaluations)) r.guardrail_total
    && nat_beq (length (keep is_recovered (with_role primary r.metric_evaluations)))
        r.primary_recovered
    && nat_beq (length (keep is_recovered (with_role guardrail r.metric_evaluations)))
        r.guardrails_healthy
    && bool_beq (any is_severe (with_role guardrail r.metric_evaluations)) r.severe_guardrail_breach

pub record RecoveryLifecycleState : Type 0 where
  pub recovery_id : String
  pub incident_id : String
  pub execution_receipt_sha256 : String
  pub execution_manifest_sha256 : String
  pub config_sha256 : String
  pub generation : ℕ
  pub status : LifecycleStatus
  pub ever_recovered : Bool
  pub consecutive_failed_evaluations : ℕ
  pub applied_report_sha256s : List String
  pub last_report_sha256 : Option String
  pub last_evaluated_at : Option Instant

-- `xs[-1] == last` for a list that is not empty, and no last item for an empty list.
unfoldable pub is_last : List String → Option String → Bool
is_last [] none = true
is_last [] (some h) = false
is_last (x ∷ xs) none = false
is_last (x ∷ []) (some h) = x == h
is_last (x ∷ y ∷ ys) (some h) = is_last (y ∷ ys) (some h)

-- `recovered` and `reopened` record a prior recovery.
abbrev pub status_is_valid : LifecycleStatus → Bool → Bool
status_is_valid monitoring ever_recovered = true
status_is_valid recovered ever_recovered = ever_recovered
status_is_valid reopened ever_recovered = ever_recovered

-- The list bound and `validate_state`.
unfoldable pub lifecycle_is_valid : RecoveryLifecycleState → Bool
lifecycle_is_valid s =
    leb (length s.applied_report_sha256s) 10_000
    && is_unique s.applied_report_sha256s
    && is_last s.applied_report_sha256s s.last_report_sha256
    && status_is_valid s.status s.ever_recovered

-- The digests: `report_digest`, and `digest` of a configuration.
pub record Digests : Type 0 where
  pub report_digest : ReportBody → String
  pub config_digest : RecoveryConfig → String
