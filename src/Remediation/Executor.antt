-- ===== src/Remediation/Executor.antt =====
-- src/paic/remediation/executor.py: execution, its reconstruction, and the rollback proposal.
pub mod Actions
pub mod Rollback
pub mod States
pub mod Replay
pub mod Undo
pub mod Audit
pub mod Progress
use Prim.Native.String.{◌++◌ as text_append}
use probabilistic_ai_inciden.Base.{
  ℕ, ◌+◌, String, Bool, true, false, not, ◌||◌, ◌&&◌, leb, Option, none, some, List, [], ◌∷◌, ◌++◌,
  map, nat_beq, length, ◌==◌, ◌!=◌, string_eq, nat_eq, if◌then◌else◌, Result, ok, err, ◌>>=◌, ◌>>◌,
  reject_if, or_raise, map_err,
}
use mathlib.Core.List.{reverse}
use probabilistic_ai_inciden.Base.Membership.{has}
use probabilistic_ai_inciden.Base.Sort.{sorted}
use probabilistic_ai_inciden.Remediation.Models.{
  ControlResource, deployment, feature_flag, configuration, resource_id, ControlState,
  control_state_eq, RemediationAction, rollback_deployment, set_feature_flag, restore_configuration,
  RollbackDeploymentAction, SetFeatureFlagAction, RestoreConfigurationAction, ActionBase,
  action_base, action_id, action_type, target_id, bool_eq,
}
use probabilistic_ai_inciden.Remediation.Models.Plan.{
  Instant, RemediationPlan, awaiting_approval, plan_status_eq, ApprovalStatus, ExecutionRequest,
  ActionExecutionReceipt, ReceiptBody, ExecutionReceipt, receipts_eq, RemediationProposal,
  ApprovalTokenClaims,
}
use probabilistic_ai_inciden.Remediation.Config.{RemediationConfig, Crypto}
use probabilistic_ai_inciden.Remediation.Severity.{PolicyError}
use probabilistic_ai_inciden.Remediation.Policy.{resource_at, verify_plan}
use probabilistic_ai_inciden.Remediation.Token.{TokenError, verify_token}
use probabilistic_ai_inciden.Remediation.Effects.{
  ExecutionError, wrong_resource_kind, stale_precondition, unavailable_target, integrity_failed,
  not_allowed, state_differs, incident_differs, already_executed, token_rejected, nonce_consumed,
  unknown_target, receipt_count, state_not_reconstructed, receipts_not_reconstructed,
  bad_payload_hash, inverse_base, inverse_rollback, inverse_flag, inverse_restore, apply_action,
  Index, put, action_receipt, run_actions, in_order, next_state, invalid_receipt, other_plan,
  identity_differs, bad_generation, state_identity_changed,
}

abbrev pub nonce_hash : Crypto → ApprovalTokenClaims → String
nonce_hash crypto claims = crypto.sha256 claims.nonce

abbrev pub policy_failed : PolicyError → ExecutionError
policy_failed e = integrity_failed

-- The receipt of an execution.
unfoldable pub new_receipt :
    Crypto
    → RemediationPlan
    → ApprovalStatus
    → ExecutionRequest
    → List ℕ
    → String
    → String
    → ControlState
    → List ActionExecutionReceipt
    → ExecutionReceipt
new_receipt crypto plan status request token nonce_sha256 before_manifest after receipts = record {
  body = body;
  receipt_sha256 = crypto.receipt_digest body;
}
  where
    body : ReceiptBody
    body = record {
      execution_id = request.execution_id;
      remediation_id = plan.remediation_id;
      incident_id = plan.incident_id;
      executed_by = request.executed_by;
      executed_at = request.executed_at;
      plan_sha256 = plan.plan_sha256;
      approval_snapshot_sha256 = status.approval_snapshot_sha256;
      token_sha256 = crypto.token_sha256 token;
      token_nonce_sha256 = nonce_sha256;
      before_state_manifest_sha256 = before_manifest;
      after_state_payload_sha256 = crypto.state_digest after;
      action_receipts = receipts;
    }

-- The tests of `execute_plan` before its loop; what returns is the hash of the token's nonce.
unfoldable pub authorize_execution :
    Crypto
    → RemediationPlan
    → ControlState
    → ApprovalStatus
    → RemediationConfig
    → ExecutionRequest
    → List ℕ
    → List ℕ
    → String
    → Result ExecutionError String
authorize_execution crypto plan state status config request token secret before_manifest = do
  map_err policy_failed (verify_plan crypto plan)
  reject_if (plan.status != awaiting_approval) not_allowed
  reject_if (before_manifest != plan.control_state_manifest_sha256) state_differs
  reject_if (state.incident_id != plan.incident_id) incident_differs
  reject_if (has state.executed_plan_hashes plan.plan_sha256) already_executed
  claims ←
      map_err token_rejected
        (verify_token crypto token plan status config request.executed_at secret)
  reject_if (has state.consumed_token_nonce_hashes (nonce_hash crypto claims)) nonce_consumed
  ok (nonce_hash crypto claims)

unfoldable pub execute_plan :
    Crypto
    → RemediationPlan
    → ControlState
    → ApprovalStatus
    → RemediationConfig
    → ExecutionRequest
    → List ℕ
    → List ℕ
    → String
    → Result ExecutionError (ControlState × ExecutionReceipt)
execute_plan crypto plan state status config request token secret before_manifest = do
  nonce_sha256 ←
      authorize_execution crypto plan state status config request token secret before_manifest
  after ← next_state crypto state plan nonce_sha256
  reject_if (not (leb 1 (length after.1) && leb (length after.1) 10)) invalid_receipt
  ok (
    after.0,
    new_receipt crypto plan status request token nonce_sha256 before_manifest after.0 after.1,
  )

abbrev pub inverse_of : ActionExecutionReceipt → RemediationAction
inverse_of r = r.inverse_action

-- `build_rollback_proposal`
unfoldable pub build_rollback_proposal :
    RemediationPlan
    → ExecutionReceipt
    → String
    → Instant
    → Result ExecutionError RemediationProposal
build_rollback_proposal plan receipt requested_by requested_at = do
  reject_if (receipt.plan_sha256 != plan.plan_sha256) other_plan
  ok (record {
    remediation_id = text_append plan.remediation_id "-rollback";
    incident_id = plan.incident_id;
    investigation_report_sha256 = plan.investigation_report_sha256;
    selected_hypothesis_id = plan.selected_hypothesis_id;
    requested_by = requested_by;
    requested_at = requested_at;
    summary = text_append "Rollback executed remediation " (text_append plan.remediation_id ".");
    expected_outcome = "Restore the exact pre-remediation simulated control state.";
    rollback_trigger = "A newly approved rollback plan is executed.";
    actions = map inverse_of (reverse receipt.action_receipts);
  })

-- `verify_execution_transition`
unfoldable pub verify_execution_transition :
    Crypto
    → RemediationPlan
    → ControlState
    → ControlState
    → ExecutionReceipt
    → Result ExecutionError (Unit {0})
verify_execution_transition crypto plan before_state after_state receipt = do
  reject_if (receipt.plan_sha256 != plan.plan_sha256) other_plan
  reject_if
      (receipt.remediation_id != plan.remediation_id || receipt.incident_id != plan.incident_id)
      identity_differs
  reject_if
      (before_state.incident_id != plan.incident_id || after_state.incident_id != plan.incident_id)
      incident_differs
  reject_if (after_state.generation != before_state.generation + 1) bad_generation
  reject_if (before_state.state_id != after_state.state_id) state_identity_changed
  reject_if (has before_state.executed_plan_hashes plan.plan_sha256) already_executed
  reject_if (has before_state.consumed_token_nonce_hashes receipt.token_nonce_sha256) nonce_consumed
  reject_if (length receipt.action_receipts != length plan.actions) receipt_count
  expected ← next_state crypto before_state plan receipt.token_nonce_sha256
  reject_if (expected.0 != after_state) state_not_reconstructed
  reject_if (expected.1 != receipt.action_receipts) receipts_not_reconstructed
  reject_if (receipt.after_state_payload_sha256 != crypto.state_digest after_state) bad_payload_hash
  ok tt
