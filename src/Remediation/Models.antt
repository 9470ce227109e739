-- ===== src/Remediation/Models.antt =====
-- Resources and actions (src/paic/remediation/models.py). The patterns and length bounds of the
-- text fields are not modelled; the bounds of the lists and the `model_validator`s are tests.
pub mod Plan
use native.Mathlib.Decide.{ℕ_discrete}
use probabilistic_ai_inciden.Base.{
  ℕ, String, Bool, true, not, ◌&&◌, List, map, leb, ◌==◌, Eq, string_eq, nat_eq, length,
}
use probabilistic_ai_inciden.Base.Membership.{has, is_unique}
use probabilistic_ai_inciden.Base.Discrete.{String-discrete, discrete_eq}

pub data BlastRadius : Type 0 where
  single_instance single_service multi_service region global : BlastRadius

pub data RiskLevel : Type 0 where
  low medium high critical : RiskLevel

pub data ActionType : Type 0 where
  deployment_rollback feature_flag_set configuration_restore : ActionType

pub record DeploymentResource : Type 0 where
  pub resource_id : String
  pub current_revision : String
  pub available_revisions : List String

pub record FeatureFlagResource : Type 0 where
  pub resource_id : String
  pub enabled : Bool

pub record ConfigurationResource : Type 0 where
  pub resource_id : String
  pub current_version : String
  pub available_versions : List String

pub data ControlResource : Type 0 where
  deployment : DeploymentResource → ControlResource
  feature_flag : FeatureFlagResource → ControlResource
  configuration : ConfigurationResource → ControlResource

abbrev pub resource_id : ControlResource → String
resource_id (deployment r) = r.resource_id
resource_id (feature_flag r) = r.resource_id
resource_id (configuration r) = r.resource_id

-- `validate_revisions` and `validate_versions`: distinct entries, and the current one among them.
abbrev pub is_selection : String → List String → Bool
is_selection current available =
    leb 1 (length available)
    && leb (length available) 50
    && is_unique available
    && has available current

abbrev pub resource_is_valid : ControlResource → Bool
resource_is_valid (deployment r) = is_selection r.current_revision r.available_revisions
resource_is_valid (feature_flag r) = true
resource_is_valid (configuration r) = is_selection r.current_version r.available_versions

pub record ControlState : Type 0 where
  pub state_id : String
  pub incident_id : String
  pub generation : ℕ
  pub resources : List ControlResource
  pub consumed_token_nonce_hashes : List String
  pub executed_plan_hashes : List String

-- The list bounds of the fields and `validate_uniqueness`.
unfoldable pub state_is_valid : ControlState → Bool
state_is_valid s =
    leb 1 (length s.resources)
    && leb (length s.resources) 500
    && leb (length s.consumed_token_nonce_hashes) 10_000
    && leb (length s.executed_plan_hashes) 10_000
    && is_unique (map resource_id s.resources)
    && is_unique s.consumed_token_nonce_hashes
    && is_unique s.executed_plan_hashes

pub record ActionBase : Type 0 where
  pub action_id : String
  pub blast_radius : BlastRadius
  pub evidence_ids : List String
  pub justification : String

pub record RollbackDeploymentAction : Type 0 where
  pub base : ActionBase
  pub open base use *
  pub resource_id : String
  pub expected_current_revision : String
  pub target_revision : String

pub record SetFeatureFlagAction : Type 0 where
  pub base : ActionBase
  pub open base use *
  pub resource_id : String
  pub expected_enabled : Bool
  pub desired_enabled : Bool

pub record RestoreConfigurationAction : Type 0 where
  pub base : ActionBase
  pub open base use *
  pub resource_id : String
  pub expected_current_version : String
  pub target_version : String

pub data RemediationAction : Type 0 where
  rollback_deployment : RollbackDeploymentAction → RemediationAction
  set_feature_flag : SetFeatureFlagAction → RemediationAction
  restore_configuration : RestoreConfigurationAction → RemediationAction

abbrev pub action_base : RemediationAction → ActionBase
action_base (rollback_deployment a) = a.base
action_base (set_feature_flag a) = a.base
action_base (restore_configuration a) = a.base

abbrev pub action_id : RemediationAction → String
action_id a = (action_base a).action_id

abbrev pub action_type : RemediationAction → ActionType
action_type (rollback_deployment a) = deployment_rollback
action_type (set_feature_flag a) = feature_flag_set
action_type (restore_configuration a) = configuration_restore

abbrev pub target_id : RemediationAction → String
target_id (rollback_deployment a) = a.resource_id
target_id (set_feature_flag a) = a.resource_id
target_id (restore_configuration a) = a.resource_id

unfoldable pub ActionType-discrete : Discrete ActionType
ActionType-discrete = hlevel

instance abbrev pub action_type_eq : Eq ActionType
action_type_eq = discrete_eq ActionType-discrete

unfoldable pub ControlResource-discrete : Discrete ControlResource
ControlResource-discrete = hlevel String-discrete

unfoldable pub ControlState-discrete : Discrete ControlState
ControlState-discrete = hlevel (String-discrete, ℕ_discrete)

unfoldable pub RemediationAction-discrete : Discrete RemediationAction
RemediationAction-discrete = hlevel String-discrete

instance abbrev pub control_state_eq : Eq ControlState
control_state_eq = discrete_eq ControlState-discrete

instance abbrev pub bool_eq : Eq Bool
bool_eq = discrete_eq (hlevel)

-- `unique_evidence` with the list bounds, and the validators that ask for a change.
abbrev pub base_is_valid : ActionBase → Bool
base_is_valid b =
    leb 1 (length b.evidence_ids) && leb (length b.evidence_ids) 30 && is_unique b.evidence_ids

abbrev pub action_is_valid : RemediationAction → Bool
action_is_valid (rollback_deployment a) =
    base_is_valid a.base && not (a.expected_current_revision == a.target_revision)
action_is_valid (set_feature_flag a) =
    base_is_valid a.base && not (a.expected_enabled == a.desired_enabled)
action_is_valid (restore_configuration a) =
    base_is_valid a.base && not (a.expected_current_version == a.target_version)
