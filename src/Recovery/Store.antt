-- ===== src/Recovery/Store.antt =====
-- `RecoveryStateStore` of src/paic/recovery/lifecycle.py: the immutable generations of a lifecycle,
-- `apply`, and the validation of their lineage. The directories of the current generation and of
-- those before it are a list in the order of their numbers; the other directories are what calls
-- left that did not replace the pointer. A store in which a directory of the lineage is missing is
-- not modelled, nor are files, locks, and a call that stops.
pub mod Replay
pub mod Names
pub mod Lineage
use native.Mathlib.Decide.{ℕ_discrete}
use probabilistic_ai_inciden.Base.{
  ℕ, zero, suc, ◌+◌, String, Bool, true, false, not, ◌||◌, List, [], ◌∷◌, ◌++◌, ◌==◌, ◌!=◌, Eq,
  string_eq, nat_eq, Result, ok, err, ◌>>=◌, ◌>>◌, reject_if, map_err, any, leb, length, map, keep,
}
use Prim.Native.String.{slice}
use probabilistic_ai_inciden.Base.Membership.{is_unique}
use probabilistic_ai_inciden.Base.Discrete.{String-discrete, discrete_eq}
use probabilistic_ai_inciden.Remediation.Models.Plan.{Instant}
use probabilistic_ai_inciden.Recovery.Models.{
  LifecycleStatus, RecoveryConfig, RecoveryReport, RecoveryLifecycleState, Digests,
  lifecycle_is_valid, report_is_valid,
}
use probabilistic_ai_inciden.Recovery.Lifecycle.{TransitionError, Trigger, transition_state}

-- An event without its hash.
pub record LifecycleEventBody : Type 0 where
  pub recovery_id : String
  pub incident_id : String
  pub generation : ℕ
  pub report_sha256 : String
  pub config_sha256 : String
  pub before_state_sha256 : String
  pub after_state_sha256 : String
  pub previous_event_sha256 : String
  pub from_status : LifecycleStatus
  pub to_status : LifecycleStatus
  pub trigger : Trigger
  pub evaluated_at : Instant

pub record RecoveryLifecycleEvent : Type 0 where
  pub body : LifecycleEventBody
  pub open body use *
  pub event_sha256 : String

-- What a generation after the first holds.
pub record Generation : Type 0 where
  pub state : RecoveryLifecycleState
  pub event : RecoveryLifecycleEvent
  pub report : RecoveryReport

-- `f"{generation:020d}-{event_sha256[:16]}"`
pub record DirectoryName : Type 0 where
  pub number : ℕ
  pub suffix : String

unfoldable pub DirectoryName-discrete : Discrete DirectoryName
DirectoryName-discrete = hlevel (String-discrete, ℕ_discrete)

instance abbrev pub directory_name_eq : Eq DirectoryName
directory_name_eq = discrete_eq DirectoryName-discrete

-- The first generation's state and configuration, the generations after it to the current one,
-- oldest first, and the names of the other directories.
pub record RecoveryStateStore : Type 0 where
  pub initial : RecoveryLifecycleState
  pub config : RecoveryConfig
  pub later : List Generation
  pub left_over : List DirectoryName

-- The digests of states and of events, beside those of a transition.
pub record StoreDigests : Type 0 where
  pub digests : Digests
  pub state_digest : RecoveryLifecycleState → String
  pub event_digest : LifecycleEventBody → String

-- One constructor for each message of a `RecoveryStateStoreError` of the store, and for the
-- validators of the models that it reads.
pub data StoreError : Type 0 where
  inconsistent_generation unbound_policy report_mismatch event_mismatch broken_chain : StoreError
  inconsistent_transition inconsistent_bindings replay_differs : StoreError
  invalid_state invalid_report duplicate_generations : StoreError
  transition_failed : TransitionError → StoreError

unfoldable pub LifecycleStatus-discrete : Discrete LifecycleStatus
LifecycleStatus-discrete = hlevel

instance abbrev pub lifecycle_status_eq : Eq LifecycleStatus
lifecycle_status_eq = discrete_eq LifecycleStatus-discrete

unfoldable pub Trigger-discrete : Discrete Trigger
Trigger-discrete = hlevel

instance abbrev pub trigger_eq : Eq Trigger
trigger_eq = discrete_eq Trigger-discrete

unfoldable pub LifecycleState-discrete : Discrete RecoveryLifecycleState
LifecycleState-discrete = hlevel (String-discrete, ℕ_discrete)

instance abbrev pub lifecycle_state_eq : Eq RecoveryLifecycleState
lifecycle_state_eq = discrete_eq LifecycleState-discrete

-- `ZERO_HASH`
abbrev pub zero_hash : String
zero_hash = "0000000000000000000000000000000000000000000000000000000000000000"

-- The event that `apply` makes of a transition.
unfoldable pub new_event :
    StoreDigests
    → RecoveryLifecycleState
    → RecoveryLifecycleState
    → RecoveryReport
    → Trigger
    → String
    → RecoveryLifecycleEvent
new_event crypto previous state report trigger previous_hash = record {
  body = body;
  event_sha256 = crypto.event_digest body;
}
  where
    body : LifecycleEventBody
    body = record {
      recovery_id = state.recovery_id;
      incident_id = state.incident_id;
      generation = state.generation;
      report_sha256 = report.report_sha256;
      config_sha256 = state.config_sha256;
      before_state_sha256 = crypto.state_digest previous;
      after_state_sha256 = crypto.state_digest state;
      previous_event_sha256 = previous_hash;
      from_status = previous.status;
      to_status = state.status;
      trigger = trigger;
      evaluated_at = report.evaluated_at;
    }

-- One round of the loop of `_validate_lineage_locked`, at a generation after the first.
unfoldable pub check_generation :
    StoreDigests
    → RecoveryConfig
    → ℕ
    → RecoveryLifecycleState
    → String
    → Generation
    → Result StoreError (Unit {0})
check_generation crypto config n previous previous_hash g = do
  reject_if (not (lifecycle_is_valid g.state)) invalid_state
  reject_if (g.state.generation != n) inconsistent_generation
  reject_if (not (report_is_valid g.report.body)) invalid_report
  reject_if (g.report.report_sha256 != crypto.digests.report_digest g.report.body) report_mismatch
  reject_if (g.event.event_sha256 != crypto.event_digest g.event.body) event_mismatch
  reject_if (g.event.previous_event_sha256 != previous_hash) broken_chain
  reject_if (g.event.from_status != previous.status || g.event.to_status != g.state.status)
      inconsistent_transition
  reject_if
      (g.event.recovery_id != g.state.recovery_id
        || g.event.incident_id != g.state.incident_id
        || g.event.config_sha256 != g.state.config_sha256
        || g.event.report_sha256 != g.report.report_sha256
        || g.event.before_state_sha256 != crypto.state_digest previous
        || g.event.after_state_sha256 != crypto.state_digest g.state)
      inconsistent_bindings
  replayed ← map_err transition_failed (transition_state crypto.digests previous g.report config)
  reject_if (replayed.0 != g.state || replayed.1 != g.event.trigger) replay_differs
  ok tt

-- The loop over the generations after the first.
unfoldable pub check_generations :
    StoreDigests
    → RecoveryConfig
    → ℕ
    → RecoveryLifecycleState
    → String
    → List Generation
    → Result StoreError (Unit {0})
check_generations crypto config n previous previous_hash [] = ok tt
check_generations crypto config n previous previous_hash (g ∷ rest) =
    check_generation crypto config n previous previous_hash g
    >> check_generations crypto config (suc n) g.state g.event.event_sha256 rest

abbrev pub number_of : DirectoryName → ℕ
number_of d = d.number

-- A number of the lineage, from 0 to that of the current generation, or of another directory comes
-- twice.
unfoldable pub has_duplicates : ℕ → List DirectoryName → Bool
has_duplicates current left_over =
    any (λ d. leb (number_of d) current) left_over || not (is_unique (map number_of left_over))

-- `_validate_lineage_locked`
unfoldable pub validate_lineage : StoreDigests → RecoveryStateStore → Result StoreError (Unit {0})
validate_lineage crypto store = do
  reject_if (has_duplicates (length store.later) store.left_over) duplicate_generations
  reject_if (not (lifecycle_is_valid store.initial)) invalid_state
  reject_if (store.initial.generation != 0) inconsistent_generation
  reject_if
      (crypto.digests.config_digest store.config != store.initial.config_sha256
        || store.config.recovery_id != store.initial.recovery_id
        || store.config.incident_id != store.initial.incident_id)
      unbound_policy
  check_generations crypto store.config 1 store.initial zero_hash store.later

-- The current state and the hash of its event, or what stands before the first event.
unfoldable pub current_of :
    RecoveryLifecycleState → String → List Generation → RecoveryLifecycleState × String
current_of previous previous_hash [] = (previous, previous_hash)
current_of previous previous_hash (g ∷ rest) = current_of g.state g.event.event_sha256 rest

-- `destination_name`
abbrev pub destination : RecoveryLifecycleState → RecoveryLifecycleEvent → DirectoryName
destination state event = record {
  number = state.generation;
  suffix = slice event.event_sha256 0 16;
}

-- `RecoveryStateStore.apply`: a directory of the destination's name is removed, since the number of
-- the generation is greater than the current one.
unfoldable pub apply :
    StoreDigests
    → RecoveryStateStore
    → RecoveryReport
    → RecoveryConfig
    → Result StoreError RecoveryStateStore
apply crypto store report config = do
  validate_lineage crypto store
  let current = current_of store.initial zero_hash store.later
  moved ← map_err transition_failed (transition_state crypto.digests current.0 report config)
  let event = new_event crypto current.0 moved.0 report moved.1 current.1
  ok (record store {
    later = store.later ++ record { state = moved.0; event = event; report = report } ∷ [];
    left_over = keep (λ d. d != destination moved.0 event) store.left_over;
  })
