-- ===== src/Recovery/Lifecycle.antt =====
-- src/paic/recovery/lifecycle.py: `transition_state`.
pub mod Transition
pub mod Reopening
pub mod History
use probabilistic_ai_inciden.Base.{
  ℕ, ◌+◌, String, Bool, true, false, not, ◌&&◌, ◌||◌, Option, none, some, List, [], ◌∷◌, ◌++◌, leb,
  ltb, ◌!=◌, string_eq, if◌then◌else◌, Result, ok, err, ◌>>=◌, ◌>>◌, reject_if,
}
use probabilistic_ai_inciden.Base.Membership.{has}
use probabilistic_ai_inciden.Remediation.Models.Plan.{Instant}
use probabilistic_ai_inciden.Recovery.Models.{
  LifecycleStatus, monitoring, recovered, reopened, RecoveryDecision, insufficient_data,
  RecoveryConfig, RecoveryReport, RecoveryLifecycleState, lifecycle_is_valid, Digests,
}

-- One constructor for each message; `invalid_state` is the error of the state's own validator.
pub data TransitionError : Type 0 where
  hash_mismatch other_incident other_execution other_manifest other_recovery : TransitionError
  policy_mismatch already_applied out_of_order invalid_state : TransitionError

pub data Trigger : Type 0 where
  incident_already_reopened recovery_verified recovery_evidence_gap : Trigger
  severe_guardrail_regression sustained_recovery_regression : Trigger
  recovery_not_yet_verified regression_observed : Trigger

pub record Judgement : Type 0 where
  pub status : LifecycleStatus
  pub failures : ℕ
  pub trigger : Trigger

abbrev pub new_failures : RecoveryLifecycleState → ℕ
new_failures previous =
    if previous.ever_recovered then previous.consecutive_failed_evaluations + 1 else 0

abbrev pub is_severe_reopening : RecoveryReport → RecoveryConfig → Bool
is_severe_reopening report config =
    report.severe_guardrail_breach && config.immediate_reopen_on_severe_guardrail

abbrev pub at_threshold : RecoveryLifecycleState → RecoveryConfig → Bool
at_threshold previous config =
    previous.ever_recovered && leb config.reopen_after_consecutive_failures (new_failures previous)

-- The last branch: a report that says `recovering` or `failed`.
unfoldable pub judge_regression :
    RecoveryLifecycleState → RecoveryReport → RecoveryConfig → Judgement
judge_regression previous report config =
    if is_severe_reopening report config || at_threshold previous config
    then record {
      status = reopened;
      failures = new_failures previous;
      trigger =
          if is_severe_reopening report config
          then severe_guardrail_regression
          else sustained_recovery_regression;
    }
    else record {
      status = monitoring;
      failures = new_failures previous;
      trigger =
          if not previous.ever_recovered then recovery_not_yet_verified else regression_observed;
    }

-- The branches on the status before and the report's decision.
unfoldable pub judge :
    LifecycleStatus
    → RecoveryDecision
    → RecoveryLifecycleState
    → RecoveryReport
    → RecoveryConfig
    → Judgement
judge reopened _ previous report config = record {
  status = reopened;
  failures = previous.consecutive_failed_evaluations;
  trigger = incident_already_reopened;
}
judge _ RecoveryDecision.recovered previous report config = record {
  status = recovered;
  failures = 0;
  trigger = recovery_verified;
}
judge recovered insufficient_data previous report config = record {
  status = recovered;
  failures = previous.consecutive_failed_evaluations;
  trigger = recovery_evidence_gap;
}
judge monitoring insufficient_data previous report config = record {
  status = monitoring;
  failures = previous.consecutive_failed_evaluations;
  trigger = recovery_evidence_gap;
}
judge _ _ previous report config = judge_regression previous report config

abbrev pub says_recovered : RecoveryDecision → Bool
says_recovered RecoveryDecision.recovered = true
says_recovered _ = false

-- The state that `transition_state` constructs.
abbrev pub next_state : RecoveryLifecycleState → RecoveryReport → Judgement → RecoveryLifecycleState
next_state previous report judgement = record {
  recovery_id = previous.recovery_id;
  incident_id = previous.incident_id;
  execution_receipt_sha256 = previous.execution_receipt_sha256;
  execution_manifest_sha256 = previous.execution_manifest_sha256;
  config_sha256 = previous.config_sha256;
  generation = previous.generation + 1;
  status = judgement.status;
  ever_recovered = previous.ever_recovered || says_recovered report.decision;
  consecutive_failed_evaluations = judgement.failures;
  applied_report_sha256s = previous.applied_report_sha256s ++ report.report_sha256 ∷ [];
  last_report_sha256 = some report.report_sha256;
  last_evaluated_at = some report.evaluated_at;
}

-- `last is not None and at <= last`
abbrev pub is_not_later : Instant → Option Instant → Bool
is_not_later at none = false
is_not_later at (some last) = leb at last

-- The tests of `transition_state`.
unfoldable pub check_report :
    Digests
    → RecoveryLifecycleState
    → RecoveryReport
    → RecoveryConfig
    → Result TransitionError (Unit {0})
check_report digests previous report config = do
  reject_if (report.report_sha256 != digests.report_digest report.body) hash_mismatch
  reject_if (report.incident_id != previous.incident_id) other_incident
  reject_if (report.execution_receipt_sha256 != previous.execution_receipt_sha256) other_execution
  reject_if (report.execution_manifest_sha256 != previous.execution_manifest_sha256) other_manifest
  reject_if (report.recovery_id != previous.recovery_id) other_recovery
  reject_if
      (report.config_sha256 != previous.config_sha256
        || digests.config_digest config != previous.config_sha256)
      policy_mismatch
  reject_if (has previous.applied_report_sha256s report.report_sha256) already_applied
  reject_if (is_not_later report.evaluated_at previous.last_evaluated_at) out_of_order
  ok tt

unfoldable pub transition_state :
    Digests
    → RecoveryLifecycleState
    → RecoveryReport
    → RecoveryConfig
    → Result TransitionError (RecoveryLifecycleState × Trigger)
transition_state digests previous report config = do
  check_report digests previous report config
  let judgement = judge previous.status report.decision previous report config
  let next = next_state previous report judgement
  reject_if (not (lifecycle_is_valid next)) invalid_state
  ok (next, judgement.trigger)
