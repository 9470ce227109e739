-- ===== src/Recovery/StoreExamples.antt =====
-- Examples of the theorems about the store of src/paic/recovery/lifecycle.py.
use Prim.Native.String.{◌++◌ as text_append}
use Prim.Native.String.{slice}
use probabilistic_ai_inciden.Base.Membership.{In}
use probabilistic_ai_inciden.Base.{◌↔◌, ◌++◌, ◌≡◌, refl, true, false, some, [], ◌∷◌, ok}
use probabilistic_ai_inciden.Recovery.Models.{
  RecoveryDecision, LifecycleStatus, RecoveryReport, RecoveryLifecycleState, is_last,
  lifecycle_is_valid, report_is_valid, MetricRole-discrete, RecoveryDecision-discrete,
}
use probabilistic_ai_inciden.Recovery.Lifecycle.{Trigger, judge, check_report, transition_state}
use probabilistic_ai_inciden.Recovery.Lifecycle.History.{Applied}
use probabilistic_ai_inciden.Recovery.Store
use probabilistic_ai_inciden.Recovery.Store.{
  DirectoryName, Generation, RecoveryStateStore, StoreDigests, has_duplicates, new_event,
  check_generation, check_generations, validate_lineage, current_of, LifecycleStatus-discrete,
  Trigger-discrete, LifecycleState-discrete, zero_hash,
}
use probabilistic_ai_inciden.Recovery.Store.Lineage.{validate_lineage-replays, apply-validates_iff}
use probabilistic_ai_inciden.Recovery.Samples.{
  sample_digests, sample_config, report_with, fresh_state,
}

abbrev store_digests : StoreDigests
store_digests = record {
  digests = sample_digests;
  state_digest = λ s. text_append "state:" s.recovery_id;
  event_digest = λ e. text_append "event:" e.report_sha256;
}

abbrev good_report : RecoveryReport
good_report = record {
  body = record (report_with RecoveryDecision.recovered false "a" 100).body {
    primary_recovered = 1;
  };
  report_sha256 = "report:a";
}

abbrev good_state : RecoveryLifecycleState
good_state = record fresh_state {
  generation = 1;
  status = LifecycleStatus.recovered;
  ever_recovered = true;
  applied_report_sha256s = "report:a" ∷ [];
  last_report_sha256 = some "report:a";
  last_evaluated_at = some 100;
}

abbrev first_store : RecoveryStateStore
first_store = record { initial = fresh_state; config = sample_config; later = []; left_over = [] }

abbrev second_store : RecoveryStateStore
second_store = record first_store {
  left_over = [];
  later =
      record {
        state = good_state;
        event = record {
          body = record {
            recovery_id = "rec-1";
            incident_id = "inc-1";
            generation = 1;
            report_sha256 = "report:a";
            config_sha256 = "config:rec-1";
            before_state_sha256 = "state:rec-1";
            after_state_sha256 = "state:rec-1";
            previous_event_sha256 = zero_hash;
            from_status = LifecycleStatus.monitoring;
            to_status = LifecycleStatus.recovered;
            trigger = Trigger.recovery_verified;
            evaluated_at = 100;
          };
          event_sha256 = "event:report:a";
        };
        report = good_report;
      }
      ∷ [];
}

good_report-valid : report_is_valid good_report.body ≡ true
unfolding report_is_valid MetricRole-discrete RecoveryDecision-discrete
good_report-valid = refl

first_applied : Store.apply store_digests first_store good_report sample_config ≡ ok second_store
unfolding Store.apply has_duplicates validate_lineage check_generations current_of transition_state
    check_report judge lifecycle_is_valid is_last new_event
first_applied = refl

apply-validates_iff_example :
    (new : Generation) × (second_store.later ≡ [] ++ new ∷ [])
    × (new.report ≡ good_report)
    × ((validate_lineage store_digests second_store ≡ ok tt) ↔ (
        (d : DirectoryName)
        → In {A = DirectoryName} d []
        → d.number ≡ 1
        → d.suffix ≡ slice new.event.event_sha256 0 16))
apply-validates_iff_example =
    apply-validates_iff store_digests first_store good_report sample_config second_store (λ e. refl)
      good_report-valid first_applied

second_store-valid : validate_lineage store_digests second_store ≡ ok tt
second_store-valid = apply-validates_iff_example.3.1 (λ d m. absurd m)

validate_lineage-replays_example :
    Applied sample_digests sample_config fresh_state (good_report ∷ []) good_state
unfolding current_of
validate_lineage-replays_example =
    validate_lineage-replays store_digests second_store second_store-valid
