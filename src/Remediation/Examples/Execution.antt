-- ===== src/Remediation/Examples/Execution.antt =====
-- Examples of the theorems about src/paic/remediation/executor.py.
use mathlib.Core.Logic.{◌↔◌}
use native.Mathlib.Decide.{ℕ_discrete}
use probabilistic_ai_inciden.Base.{
  ◌≡◌, ◌+◌, refl, true, false, none, some, List, [], ◌∷◌, arith, ok,
}
use probabilistic_ai_inciden.Base.Membership.{Distinct}
use probabilistic_ai_inciden.Remediation.Models.{
  ControlState, ControlResource, RemediationAction, single_service, feature_flag_set, deployment,
  feature_flag, set_feature_flag, state_is_valid,
}
use probabilistic_ai_inciden.Remediation.Models.Plan.{
  PlanStatus-discrete, Standing-discrete, Texts-discrete, claims_are_valid, ExecutionReceipt,
  ActionExecutionReceipt, RemediationPlan, RemediationProposal,
}
use probabilistic_ai_inciden.Remediation.Policy.{validate_action_state, verify_plan, resource_at}
use probabilistic_ai_inciden.Base.Discrete.{String-discrete}
use probabilistic_ai_inciden.Base.Sort.{insort, sort_by, sorted}
use probabilistic_ai_inciden.Remediation.Token.{
  verify_token, open_token, check_claims, split_dot, prepend, two_parts, Bytes-discrete,
}
use probabilistic_ai_inciden.Remediation.Token.Base64.{
  b64decode, decode, of_char, same_bytes, b64encode, to_char,
}
use probabilistic_ai_inciden.Remediation.Effects.{
  run_actions, in_order, action_receipt, apply_action, next_state,
}
use probabilistic_ai_inciden.Remediation.Executor.{
  authorize_execution, new_receipt, execute_plan, build_rollback_proposal,
  verify_execution_transition,
}
use probabilistic_ai_inciden.Remediation.Executor.Actions.{validate_action_state_iff}
use probabilistic_ai_inciden.Remediation.Executor.States.{ids, AllValid}
use probabilistic_ai_inciden.Remediation.Executor.Replay.{
  none_yet, executed, nonces, plans, History-no_replay,
}
use probabilistic_ai_inciden.Remediation.Executor.Undo.{execute_plan-rollback}
use probabilistic_ai_inciden.Remediation.Executor.Audit.{
  Agrees, execute_plan_audited, execute_plan-valid,
}
use probabilistic_ai_inciden.Remediation.Samples.{
  sample_crypto, sample_plan, sample_state, sample_status, sample_config, sample_request,
  sample_token, sample_secret, sample_action, sample_resources,
}

abbrev pub sample_after : ControlState
sample_after = record sample_state {
  generation = 5;
  resources =
      deployment (record {
        resource_id = "checkout";
        current_revision = "r2";
        available_revisions = "r1" ∷ "r2" ∷ [];
      })
      ∷ feature_flag (record { resource_id = "new-checkout"; enabled = false })
      ∷ [];
  consumed_token_nonce_hashes = "sha256:n-0" ∷ "sha256:n-1" ∷ [];
  executed_plan_hashes = "plan:fix-checkout" ∷ "plan:older" ∷ [];
}

abbrev sample_inverse : RemediationAction
sample_inverse = set_feature_flag (record {
  base = record {
    action_id = "reverse-disable-flag";
    blast_radius = single_service;
    evidence_ids = "ev-1" ∷ [];
    justification = "Reverse approved action disable-flag.";
  };
  resource_id = "new-checkout";
  expected_enabled = false;
  desired_enabled = true;
})

abbrev pub sample_receipt : ExecutionReceipt
sample_receipt = record {
  body = record {
    execution_id = "exec-1";
    remediation_id = "fix-checkout";
    incident_id = "inc-1";
    executed_by = "dave";
    executed_at = 3000;
    plan_sha256 = "plan:fix-checkout";
    approval_snapshot_sha256 = "snapshot:plan:fix-checkout";
    token_sha256 = "sha256:token";
    token_nonce_sha256 = "sha256:n-1";
    before_state_manifest_sha256 = "control-1";
    after_state_payload_sha256 = "state:state-1";
    action_receipts =
        record {
          action_id = "disable-flag";
          action_type = feature_flag_set;
          resource_id = "new-checkout";
          before_sha256 = "resource:new-checkout";
          after_sha256 = "resource:new-checkout";
          inverse_action = sample_inverse;
        }
        ∷ [];
  };
  receipt_sha256 = "receipt:exec-1";
}

abbrev sample_out : ControlState × ExecutionReceipt
sample_out = (sample_after, sample_receipt)

sample_run :
    execute_plan sample_crypto sample_plan sample_state sample_status sample_config sample_request
      sample_token sample_secret "control-1"
    ≡ ok sample_out
unfolding execute_plan authorize_execution verify_plan PlanStatus-discrete verify_token open_token
    check_claims split_dot prepend two_parts b64decode decode of_char same_bytes b64encode to_char
    Bytes-discrete Standing-discrete Texts-discrete claims_are_valid next_state run_actions
    apply_action in_order resource_at action_receipt new_receipt String-discrete sort_by sorted
    insort ℕ_discrete
sample_run = refl

sample_valid : AllValid sample_resources
sample_valid = (refl, (refl, tt))

sample_state-valid : state_is_valid sample_state ≡ true
unfolding state_is_valid
sample_state-valid = refl

History-no_replay_example :
    Distinct (nonces (sample_receipt ∷ []))
    × Distinct (plans (sample_receipt ∷ []))
    × (sample_after.generation ≡ sample_state.generation + 1)
History-no_replay_example =
    History-no_replay sample_crypto sample_state {receipts = sample_receipt ∷ []}
      {state = sample_after}
      (executed sample_plan sample_status sample_config sample_request sample_token sample_secret
        "control-1" sample_out none_yet sample_run)

abbrev sample_rollback : RemediationProposal
sample_rollback = record {
  remediation_id = "fix-checkout-rollback";
  incident_id = "inc-1";
  investigation_report_sha256 = "report-1";
  selected_hypothesis_id = "h-1";
  requested_by = "erin";
  requested_at = 9000;
  summary = "Rollback executed remediation fix-checkout.";
  expected_outcome = "Restore the exact pre-remediation simulated control state.";
  rollback_trigger = "A newly approved rollback plan is executed.";
  actions = sample_inverse ∷ [];
}

abbrev sample_rollback_plan : RemediationPlan
sample_rollback_plan = record {
  body = record sample_plan.body { remediation_id = "undo"; actions = sample_inverse ∷ [] };
  plan_sha256 = "plan:undo";
}

sample_rollback_made :
    build_rollback_proposal sample_plan sample_receipt "erin" 9000 ≡ ok sample_rollback
unfolding build_rollback_proposal
sample_rollback_made = refl

execute_plan-rollback_example :
    (undone : ControlState × List ActionExecutionReceipt) × (next_state sample_crypto sample_after
        sample_rollback_plan "sha256:n-2"
      ≡ ok undone)
    × (undone.0.resources ≡ sample_resources)
execute_plan-rollback_example =
    execute_plan-rollback sample_crypto sample_plan sample_state sample_status sample_config
      sample_request sample_token sample_secret "control-1" sample_out sample_state-valid
      sample_valid sample_run "erin" 9000 sample_rollback sample_rollback_made sample_rollback_plan
      "sha256:n-2" refl

execute_plan_audited_example :
    (verify_execution_transition sample_crypto sample_plan sample_state sample_after sample_receipt
      ≡ ok tt)
    ↔ ((sample_after ≡ sample_out.0) × Agrees sample_crypto sample_receipt sample_out.1)
execute_plan_audited_example =
    execute_plan_audited sample_crypto sample_plan sample_state sample_status sample_config
      sample_request sample_token sample_secret "control-1" sample_out sample_run sample_after
      sample_receipt refl

execute_plan-valid_example :
    (state_is_valid sample_after ≡ true)
    × AllValid sample_after.resources
    × (ids sample_after.resources ≡ ids sample_resources)
execute_plan-valid_example =
    execute_plan-valid sample_crypto sample_plan sample_state sample_status sample_config
      sample_request sample_token sample_secret "control-1" sample_out sample_state-valid
      sample_valid (omega arith) (omega arith) sample_run

validate_action_state_iff_example :
    (validate_action_state sample_action
        (some (feature_flag (record { resource_id = "new-checkout"; enabled = true })))
      ≡ none)
    ↔ ((out : ControlResource × RemediationAction) × (apply_action sample_action
            (feature_flag (record { resource_id = "new-checkout"; enabled = true }))
          ≡ ok out))
validate_action_state_iff_example =
    validate_action_state_iff sample_action
      (feature_flag (record { resource_id = "new-checkout"; enabled = true }))
