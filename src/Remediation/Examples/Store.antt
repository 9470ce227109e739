-- ===== src/Remediation/Examples/Store.antt =====
-- Examples of the theorems about src/paic/remediation/state_store.py.
use native.Mathlib.Decide.{ℕ_discrete}
use Prim.Native.String.{◌++◌ as text_append}
use probabilistic_ai_inciden.Base.{
  false, ◌≡◌, ◌↔◌, refl, ap, ◌∙◌, ◌++◌, String, none, some, inl, inr, [], ◌∷◌, Result, ok,
}
use probabilistic_ai_inciden.Base.Discrete.{String-discrete}
use probabilistic_ai_inciden.Base.Membership.{In, Distinct}
use probabilistic_ai_inciden.Base.Sort.{insort, sort_by, sorted}
use probabilistic_ai_inciden.Remediation.Models.{
  ControlState, ControlState-discrete, ControlResource-discrete, RemediationAction-discrete,
  ActionType-discrete, state_is_valid,
}
use probabilistic_ai_inciden.Remediation.Models.Plan.{
  RiskLevel-discrete, PlanStatus-discrete, Standing-discrete, Texts-discrete, Receipts-discrete,
  claims_are_valid, ExecutionReceipt,
}
use probabilistic_ai_inciden.Remediation.Policy.{verify_plan, resource_at}
use probabilistic_ai_inciden.Remediation.Decisions.{validate_from, check_record}
use probabilistic_ai_inciden.Remediation.Approval.{
  evaluate_approval, collect, verify_attestation, registered_identity, check_attestation,
  check_decision, conclude, standing,
}
use probabilistic_ai_inciden.Remediation.Decisions
use probabilistic_ai_inciden.Remediation.Examples.Execution.{sample_after, sample_receipt}
use probabilistic_ai_inciden.Remediation.Token.{
  verify_token, open_token, check_claims, split_dot, prepend, two_parts, Bytes-discrete,
}
use probabilistic_ai_inciden.Remediation.Token.Base64.{
  b64decode, decode, of_char, same_bytes, b64encode, to_char,
}
use probabilistic_ai_inciden.Remediation.Effects.{
  run_actions, in_order, action_receipt, apply_action, next_state,
}
use probabilistic_ai_inciden.Remediation.Executor.{
  authorize_execution, new_receipt, execute_plan, verify_execution_transition,
}
use probabilistic_ai_inciden.Remediation.Generation.{
  Name, later, Name-discrete, Entry, ControlStateStore, StoreError, empty, directory_is_safe,
}
use probabilistic_ai_inciden.Remediation.StateStore.{
  number_of, current_of, Call, Transaction, begin, discard, make_room, check_prepared, finish,
  settle, execute, published, stopped, initialize, generation_roots, range, is_contiguous,
  check_receipt, validate,
}
use probabilistic_ai_inciden.Remediation.StateStore.Retry.{Follows, crash_retry}
use probabilistic_ai_inciden.Remediation.StateStore.Lineage.{
  Life, fresh, returned, crashed, Life-once,
}
use probabilistic_ai_inciden.Remediation.StateStore.Validity.{execute-validates_iff}
use probabilistic_ai_inciden.Remediation.StateStore.Initial.{initialize-validates_iff}
use probabilistic_ai_inciden.Remediation.Samples.{
  sample_crypto, sample_plan, sample_state, sample_config, sample_request, sample_token,
  sample_secret, record_of_alice,
}

abbrev first_state : ControlState
first_state = record sample_state { generation = 0 }

abbrev sample_manifest : ControlState → String
sample_manifest s = text_append "control-" s.state_id

abbrev first_store : ControlStateStore
first_store = record {
  meta = some (record {
    origin_manifest_sha256 = "control-1";
    state_id = "state-1";
    incident_id = "inc-1";
  });
  current = some (record { generation = 0; directory = Name.initial; receipt_sha256 = none });
  staged_pointer = false;
  generations =
      record {
        name = Name.initial;
        state = some first_state;
        manifest_sha256 = "control-1";
        receipt = none;
      }
      ∷ [];
}

abbrev sample_call : Call
sample_call = record {
  plan = sample_plan;
  ledger = record_of_alice ∷ [];
  config = sample_config;
  request = sample_request;
  token = sample_token;
  secret = sample_secret;
}

first_store-initialized : initialize first_state "control-1" empty ≡ ok first_store
unfolding initialize Name-discrete String-discrete ℕ_discrete
first_store-initialized = refl

initialize-validates_iff_example :
    (validate sample_crypto first_store ≡ ok tt) ↔ (first_state.generation ≡ 0)
initialize-validates_iff_example =
    initialize-validates_iff sample_crypto first_state "control-1" first_store
      first_store-initialized

abbrev run : ControlStateStore → ControlStateStore × Result StoreError (Name × ExecutionReceipt)
run store = execute sample_crypto sample_manifest store sample_call

abbrev first_transaction : Transaction
first_transaction = record {
  pointer = record { generation = 0; directory = Name.initial; receipt_sha256 = none };
  before = record {
    name = Name.initial;
    state = some first_state;
    manifest_sha256 = "control-1";
    receipt = none;
  };
  state = first_state;
  after = record sample_after { generation = 1 };
  receipt = sample_receipt;
}

first_begun : begin sample_crypto first_store sample_call ≡ ok first_transaction
unfolding begin current_of directory_is_safe evaluate_approval Decisions.validate validate_from
    check_record collect verify_attestation registered_identity check_attestation check_decision
    conclude standing sorted sort_by insort RiskLevel-discrete PlanStatus-discrete execute_plan
    authorize_execution verify_plan verify_token open_token check_claims split_dot prepend two_parts
    b64decode decode of_char same_bytes b64encode to_char Bytes-discrete Standing-discrete
    Texts-discrete claims_are_valid next_state run_actions apply_action in_order resource_at
    action_receipt new_receipt String-discrete ℕ_discrete Name-discrete
first_begun = refl

crash_retry_example :
    Follows sample_crypto sample_manifest first_store sample_call first_transaction published
crash_retry_example =
    crash_retry sample_crypto sample_manifest first_store sample_call first_transaction published
      first_begun

first_returned : (run first_store).1 ≡ ok (later 1 "receipt:exec-1", sample_receipt)
unfolding execute finish settle make_room discard check_prepared verify_execution_transition
    state_is_valid ControlState-discrete ControlResource-discrete RemediationAction-discrete
    ActionType-discrete Receipts-discrete begin current_of directory_is_safe evaluate_approval
    Decisions.validate validate_from check_record collect verify_attestation registered_identity
    check_attestation check_decision conclude standing sorted sort_by insort RiskLevel-discrete
    PlanStatus-discrete execute_plan authorize_execution verify_plan verify_token open_token
    check_claims split_dot prepend two_parts b64decode decode of_char same_bytes b64encode to_char
    Bytes-discrete Standing-discrete Texts-discrete claims_are_valid next_state run_actions
    apply_action in_order resource_at action_receipt new_receipt String-discrete ℕ_discrete
    Name-discrete
first_returned = refl

crashed_returned :
    (run (stopped sample_manifest published first_transaction first_store)).1
    ≡ ok (later 1 "receipt:exec-1", sample_receipt)
crashed_returned = ap (λ x. x.1) crash_retry_example.1 ∙ first_returned

Life-once_example : Distinct {A = String} ("plan:fix-checkout" ∷ [])
Life-once_example =
    let start : Life sample_crypto sample_manifest first_store [] first_store = fresh in
    let tried = crashed sample_call first_transaction published start tt first_begun in
    Life-once sample_crypto sample_manifest
      (returned sample_call (later 1 "receipt:exec-1", sample_receipt) tried crashed_returned)

first_store-valid : validate sample_crypto first_store ≡ ok tt
first_store-valid = initialize-validates_iff_example.1 refl

-- A generation that an attempt with another receipt left behind.
abbrev orphan : Entry
orphan = record { name = later 1 "x"; state = none; manifest_sha256 = "control-1"; receipt = none }

abbrev orphan_store : ControlStateStore
orphan_store = record first_store { generations = first_store.generations ++ orphan ∷ [] }

orphan_store-valid : validate sample_crypto orphan_store ≡ ok tt
unfolding validate current_of directory_is_safe generation_roots range is_contiguous check_receipt
    Name-discrete String-discrete ℕ_discrete
orphan_store-valid = refl

orphan_returned : (run orphan_store).1 ≡ ok (later 1 "receipt:exec-1", sample_receipt)
unfolding execute finish settle make_room discard check_prepared verify_execution_transition
    state_is_valid ControlState-discrete ControlResource-discrete RemediationAction-discrete
    ActionType-discrete Receipts-discrete begin current_of directory_is_safe evaluate_approval
    Decisions.validate validate_from check_record collect verify_attestation registered_identity
    check_attestation check_decision conclude standing sorted sort_by insort RiskLevel-discrete
    PlanStatus-discrete execute_plan authorize_execution verify_plan verify_token open_token
    check_claims split_dot prepend two_parts b64decode decode of_char same_bytes b64encode to_char
    Bytes-discrete Standing-discrete Texts-discrete claims_are_valid next_state run_actions
    apply_action in_order resource_at action_receipt new_receipt String-discrete ℕ_discrete
    Name-discrete
orphan_returned = refl

execute-validates_iff_example : (validate sample_crypto (run orphan_store).0 ≡ ok tt) ↔ (
    (e : Entry)
    → In e orphan_store.generations
    → number_of e ≡ 1
    → e.name ≡ later 1 "receipt:exec-1")
execute-validates_iff_example =
    execute-validates_iff sample_crypto sample_manifest orphan_store sample_call
      (later 1 "receipt:exec-1", sample_receipt) orphan_store-valid orphan_returned

-- The store that the call left does not validate.
orphan_breaks : ¬ (validate sample_crypto (run orphan_store).0 ≡ ok tt)
orphan_breaks accepted =
    let same = execute-validates_iff_example.0 accepted orphan (inr (inl refl)) refl in cc same

first_store_validates : validate sample_crypto (run first_store).0 ≡ ok tt
first_store_validates =
    (execute-validates_iff sample_crypto sample_manifest first_store sample_call
        (later 1 "receipt:exec-1", sample_receipt) first_store-valid first_returned).1
      (λ e m n. elim m [ inl same ↦ absurd (cc (n, ap number_of same)) | inr z ↦ absurd z ])
