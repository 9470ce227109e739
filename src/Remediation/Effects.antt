-- ===== src/Remediation/Effects.antt =====
-- src/paic/remediation/executor.py: what actions do to a state, and the next state.
use Prim.Native.String.{◌++◌ as text_append}
use probabilistic_ai_inciden.Base.{
  ◌+◌, String, not, Option, some, List, [], ◌∷◌, ◌++◌, map, ◌==◌, ◌!=◌, string_eq, nat_eq,
  if◌then◌else◌, Result, ok, err, ◌>>=◌, ◌>>◌, reject_if, or_raise,
}
use probabilistic_ai_inciden.Base.Membership.{has}
use probabilistic_ai_inciden.Base.Sort.{sorted}
use probabilistic_ai_inciden.Remediation.Models.{
  ControlResource, deployment, feature_flag, configuration, resource_id, ControlState,
  control_state_eq, RemediationAction, rollback_deployment, set_feature_flag, restore_configuration,
  RollbackDeploymentAction, SetFeatureFlagAction, RestoreConfigurationAction, ActionBase, action_id,
  action_type, target_id, bool_eq,
}
use probabilistic_ai_inciden.Remediation.Models.Plan.{
  RemediationPlan, plan_status_eq, ActionExecutionReceipt, receipts_eq,
}
use probabilistic_ai_inciden.Remediation.Config.{Crypto}
use probabilistic_ai_inciden.Remediation.Policy.{resource_at}
use probabilistic_ai_inciden.Remediation.Token.{TokenError}

-- One constructor for each message of an `ExecutionError`, and `KeyError` for a missing key.
pub data ExecutionError : Type 0 where
  wrong_resource_kind stale_precondition unavailable_target : ExecutionError
  integrity_failed not_allowed state_differs incident_differs already_executed : ExecutionError
  token_rejected : TokenError → ExecutionError
  nonce_consumed : ExecutionError
  unknown_target : String → ExecutionError
  key_error invalid_receipt other_plan identity_differs bad_generation state_identity_changed :
      ExecutionError
  receipt_count state_not_reconstructed receipts_not_reconstructed bad_payload_hash : ExecutionError

-- The base of the action that reverses an action.
abbrev pub inverse_base : ActionBase → ActionBase
inverse_base base = record {
  action_id = text_append "reverse-" base.action_id;
  blast_radius = base.blast_radius;
  evidence_ids = base.evidence_ids;
  justification = text_append "Reverse approved action " (text_append base.action_id ".");
}

abbrev pub inverse_rollback : RollbackDeploymentAction → RollbackDeploymentAction
inverse_rollback a = record {
  base = inverse_base a.base;
  resource_id = a.resource_id;
  expected_current_revision = a.target_revision;
  target_revision = a.expected_current_revision;
}

abbrev pub inverse_flag : SetFeatureFlagAction → SetFeatureFlagAction
inverse_flag a = record {
  base = inverse_base a.base;
  resource_id = a.resource_id;
  expected_enabled = a.desired_enabled;
  desired_enabled = a.expected_enabled;
}

abbrev pub inverse_restore : RestoreConfigurationAction → RestoreConfigurationAction
inverse_restore a = record {
  base = inverse_base a.base;
  resource_id = a.resource_id;
  expected_current_version = a.target_version;
  target_version = a.expected_current_version;
}

-- `_apply_action`: the resource after the action, and the action that reverses it.
unfoldable pub apply_action :
    RemediationAction
    → ControlResource
    → Result ExecutionError (ControlResource × RemediationAction)
apply_action (rollback_deployment a) (deployment r) = do
  reject_if (r.current_revision != a.expected_current_revision) stale_precondition
  reject_if (not (has r.available_revisions a.target_revision)) unavailable_target
  ok (
    deployment (record r { current_revision = a.target_revision }),
    rollback_deployment (inverse_rollback a),
  )
apply_action (set_feature_flag a) (feature_flag r) = do
  reject_if (r.enabled != a.expected_enabled) stale_precondition
  ok (feature_flag (record r { enabled = a.desired_enabled }), set_feature_flag (inverse_flag a))
apply_action (restore_configuration a) (configuration r) = do
  reject_if (r.current_version != a.expected_current_version) stale_precondition
  reject_if (not (has r.available_versions a.target_version)) unavailable_target
  ok (
    configuration (record r { current_version = a.target_version }),
    restore_configuration (inverse_restore a),
  )
apply_action _ _ = err wrong_resource_kind

-- The dictionary of the resources, as its lookup; `resource_at` is `_resource_index(state).get`.
abbrev pub Index : Type 0
Index = String → Option ControlResource

-- `updated[key] = resource`
abbrev pub put : Index → String → ControlResource → Index
put updated key resource j = if key == j then some resource else updated j

unfoldable pub action_receipt :
    Crypto
    → RemediationAction
    → ControlResource
    → ControlResource
    → RemediationAction
    → ActionExecutionReceipt
action_receipt crypto action resource after inverse = record {
  action_id = action_id action;
  action_type = action_type action;
  resource_id = target_id action;
  before_sha256 = crypto.resource_digest resource;
  after_sha256 = crypto.resource_digest after;
  inverse_action = inverse;
}

-- The loop over the plan's actions, in `execute_plan` and in `verify_execution_transition`: the
-- dictionary after it, and the receipts.
unfoldable pub run_actions :
    Crypto
    → Index
    → List RemediationAction
    → Result ExecutionError (Index × List ActionExecutionReceipt)
run_actions crypto updated [] = ok (updated, [])
run_actions crypto updated (action ∷ rest) = do
  resource ← or_raise (updated (target_id action)) (unknown_target (target_id action))
  step ← apply_action action resource
  out ← run_actions crypto (put updated (target_id action) step.0) rest
  ok (out.0, action_receipt crypto action resource step.0 step.1 ∷ out.1)

-- `[updated[resource_id] for resource_id in resource_order]`
unfoldable pub in_order : Index → List String → Result ExecutionError (List ControlResource)
in_order updated [] = ok []
in_order updated (id ∷ rest) = do
  resource ← or_raise (updated id) key_error
  resources ← in_order updated rest
  ok (resource ∷ resources)

-- The state after the actions of a plan, under a token's nonce hash, with the receipts.
unfoldable pub next_state :
    Crypto
    → ControlState
    → RemediationPlan
    → String
    → Result ExecutionError (ControlState × List ActionExecutionReceipt)
next_state crypto state plan nonce_sha256 = do
  out ← run_actions crypto (resource_at state.resources) plan.actions
  resources ← in_order out.0 (map resource_id state.resources)
  ok (
    record state {
      generation = state.generation + 1;
      resources = resources;
      consumed_token_nonce_hashes = sorted (state.consumed_token_nonce_hashes ++ nonce_sha256 ∷ []);
      executed_plan_hashes = sorted (state.executed_plan_hashes ++ plan.plan_sha256 ∷ []);
    },
    out.1,
  )
