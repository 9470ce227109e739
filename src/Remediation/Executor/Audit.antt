-- ===== src/Remediation/Executor/Audit.antt =====
-- `verify_execution_transition` of executor.py, and the state that an execution leaves.
use probabilistic_ai_inciden.Base.{
  ok-injective, ℕ, suc, ◌+◌, ◌<◌, ◌≡◌, ◌↔◌, refl, ap, sym, ◌∙◌, subst, String, true, List, [], ◌∷◌,
  ◌++◌, arith, length, length-append, length-map, leb, le→leb, nat_eq, string_eq, ◌||◌, ◌!=◌,
  passes_ne, same→passes, or_false, ||_false, ok, >>=-eq-ok, reject_if-eq-ok, reject_if-false,
}
use probabilistic_ai_inciden.Base.Membership.{has, Distinct, Distinct-snoc, has_false→not_In}
use probabilistic_ai_inciden.Base.Sort.{sorted, Distinct-sort_by, length-sort_by, text_le}
use probabilistic_ai_inciden.Remediation.Models.{
  ControlState, control_state_eq, RemediationAction, resource_id, state_is_valid,
}
use probabilistic_ai_inciden.Remediation.Models.Plan.{
  RemediationPlan, ApprovalStatus, ExecutionRequest, ExecutionReceipt, ActionExecutionReceipt,
  receipts_eq,
}
use probabilistic_ai_inciden.Remediation.Config.{RemediationConfig, Crypto}
use probabilistic_ai_inciden.Remediation.Effects.{
  Index, next_state, incident_differs, already_executed, nonce_consumed, receipt_count,
  state_not_reconstructed, receipts_not_reconstructed, bad_payload_hash, other_plan,
  identity_differs, bad_generation, state_identity_changed,
}
use probabilistic_ai_inciden.Remediation.Executor.{execute_plan, verify_execution_transition}
use probabilistic_ai_inciden.Remediation.Executor.Rollback.{Runs, done, step, Runs-IsIndex}
use probabilistic_ai_inciden.Remediation.Executor.States.{
  ids, AllValid, state_is_valid-parts, state_is_valid-from_parts, resource_at-IsIndex, in_order-ids,
}
use probabilistic_ai_inciden.Remediation.Executor.Replay.{
  Executed, execute_plan-Executed, next_state-fields,
}
use probabilistic_ai_inciden.Remediation.Executor.Undo.{next_state-Moved}

module _ (crypto : Crypto) where
  Runs-length :
      {d d' : Index} {actions : List RemediationAction} {receipts : List ActionExecutionReceipt}
      → Runs crypto d actions d' receipts
      → length receipts ≡ length actions
  Runs-length done = refl
  Runs-length (step a r r' inverse there applied rest) = ap suc (Runs-length rest)

  verify-from_Executed :
      (plan : RemediationPlan) (state after : ControlState) (receipt : ExecutionReceipt)
      → Executed crypto plan state after receipt
      → verify_execution_transition crypto plan state after receipt ≡ ok tt
  unfolding verify_execution_transition
  verify-from_Executed plan state after receipt e =
      let (same_state, incident, generation, _, _) =
        next_state-fields crypto state after plan _ _ e.next in
      let moved = next_state-Moved crypto state after plan _ _ e.next in
      reject_if-false _ _ _ (same→passes _ _ e.same_plan) (
        reject_if-false _ _ _
          (or_false (same→passes _ _ e.same_id) (same→passes _ _ e.same_incident))
          (reject_if-false _ _ _
            (or_false (same→passes _ _ e.permitted.same_incident)
              (same→passes _ _ (incident ∙ e.permitted.same_incident)))
            (reject_if-false _ _ _ (same→passes _ _ generation) (
              reject_if-false _ _ _ (same→passes _ _ (sym same_state)) (
                reject_if-false _ _ _ e.permitted.new_plan (
                  reject_if-false _ _ _ e.permitted.new_nonce (
                    reject_if-false _ _ _ (same→passes _ _ (Runs-length moved.runs)) (
                      rw e.next (
                        reject_if-false _ _ _ (same→passes after after refl) (
                          reject_if-false _ _ _
                            (same→passes receipt.action_receipts receipt.action_receipts refl)
                            (reject_if-false _ _ _ (same→passes _ _ e.payload) refl)))))))))))

  Executed-from_verify :
      (plan : RemediationPlan) (state after : ControlState) (receipt : ExecutionReceipt)
      → verify_execution_transition crypto plan state after receipt ≡ ok tt
      → Executed crypto plan state after receipt
  unfolding verify_execution_transition
  Executed-from_verify plan state after receipt h =
      let (p, h1) = reject_if-eq-ok (receipt.plan_sha256 != plan.plan_sha256) other_plan _ h in
      let (i, h2) =
        reject_if-eq-ok
          (receipt.remediation_id != plan.remediation_id || receipt.incident_id != plan.incident_id)
          identity_differs _ h1 in
      let (c, h3) =
        reject_if-eq-ok
          (state.incident_id != plan.incident_id || after.incident_id != plan.incident_id)
          incident_differs _ h2 in
      let (_, h4) =
        reject_if-eq-ok (after.generation != state.generation + 1) bad_generation _ h3 in
      let (_, h5) =
        reject_if-eq-ok (state.state_id != after.state_id) state_identity_changed _ h4 in
      let (fresh, h6) =
        reject_if-eq-ok (has state.executed_plan_hashes plan.plan_sha256) already_executed _ h5 in
      let (unused, h7) =
        reject_if-eq-ok (has state.consumed_token_nonce_hashes receipt.token_nonce_sha256)
          nonce_consumed _ h6 in
      let (_, h8) =
        reject_if-eq-ok (length receipt.action_receipts != length plan.actions) receipt_count _
          h7 in
      let (expected, next, h9) =
        >>=-eq-ok (next_state crypto state plan receipt.token_nonce_sha256) _ h8 in
      let (s, h10) = reject_if-eq-ok (expected.0 != after) state_not_reconstructed _ h9 in
      let (r, h11) =
        reject_if-eq-ok (expected.1 != receipt.action_receipts) receipts_not_reconstructed _ h10 in
      let (d, _) =
        reject_if-eq-ok (receipt.after_state_payload_sha256 != crypto.state_digest after)
          bad_payload_hash _ h11 in
      let (i1, i2) = ||_false _ (receipt.incident_id != plan.incident_id) i in
      record {
        permitted = record {
          same_incident = passes_ne _ _ (||_false (state.incident_id != plan.incident_id) _ c).0;
          new_plan = fresh;
          new_nonce = unused;
        };
        next = next ∙ (λ j. ok (passes_ne _ _ s j, passes_ne _ _ r j));
        same_plan = passes_ne _ _ p;
        same_id = passes_ne _ _ i1;
        same_incident = passes_ne _ _ i2;
        payload = passes_ne _ _ d;
      }

  -- The fields of a receipt that `verify_execution_transition` reads, in two receipts.
  pub record Agrees (given made : ExecutionReceipt) : Type 0 where
    pub plan : given.plan_sha256 ≡ made.plan_sha256
    pub remediation : given.remediation_id ≡ made.remediation_id
    pub incident : given.incident_id ≡ made.incident_id
    pub payload : given.after_state_payload_sha256 ≡ made.after_state_payload_sha256
    pub actions : given.action_receipts ≡ made.action_receipts

  module _ (plan : RemediationPlan) (state : ControlState) (status : ApprovalStatus)
      (config : RemediationConfig) (request : ExecutionRequest) (token secret : List ℕ)
      (manifest : String) (out : ControlState × ExecutionReceipt)
      (returned : execute_plan crypto plan state status config request token secret manifest
        ≡ ok out)
      (after : ControlState) (receipt : ExecutionReceipt)
      (nonce : receipt.token_nonce_sha256 ≡ out.1.token_nonce_sha256) where
    executed : Executed crypto plan state out.0 out.1
    executed =
        execute_plan-Executed crypto plan state status config request token secret manifest out
          returned

    verify-Agrees :
        verify_execution_transition crypto plan state after receipt ≡ ok tt
        → (after ≡ out.0) × Agrees receipt out.1
    verify-Agrees h =
        let audit = Executed-from_verify plan state after receipt h in
        let run : (after, receipt.action_receipts) ≡ (out.0, out.1.action_receipts) =
          ok-injective (sym audit.next ∙ ap (next_state crypto state plan) nonce ∙ executed.next) in
        let same : after ≡ out.0 = ap (λ p. p.0) run in
        (
          same,
          record {
            plan = audit.same_plan ∙ sym executed.same_plan;
            remediation = audit.same_id ∙ sym executed.same_id;
            incident = audit.same_incident ∙ sym executed.same_incident;
            payload = audit.payload ∙ ap crypto.state_digest same ∙ sym executed.payload;
            actions = ap (λ p. p.1) run;
          },
        )

    Agrees-verify :
        (after ≡ out.0) × Agrees receipt out.1
        → verify_execution_transition crypto plan state after receipt ≡ ok tt
    Agrees-verify (same, agrees) = verify-from_Executed plan state after receipt (record {
      permitted = record {
        same_incident = executed.permitted.same_incident;
        new_plan = executed.permitted.new_plan;
        new_nonce = ap (has state.consumed_token_nonce_hashes) nonce ∙ executed.permitted.new_nonce;
      };
      next =
          ap (next_state crypto state plan) nonce
          ∙ executed.next
          ∙ (λ i. ok (sym same i, sym agrees.actions i));
      same_plan = agrees.plan ∙ executed.same_plan;
      same_id = agrees.remediation ∙ executed.same_id;
      same_incident = agrees.incident ∙ executed.same_incident;
      payload = agrees.payload ∙ executed.payload ∙ ap crypto.state_digest (sym same);
    })

    -- Where an execution of the plan on the first state returned: of a receipt with the nonce of
    -- that execution, `verify_execution_transition` accepts exactly the second state that the
    -- execution returned, with a receipt that agrees with the returned one in the plan, the
    -- remediation, the incident, the digest of the state and the action receipts, which are the
    -- fields that it reads.
    pub execute_plan_audited :
        (verify_execution_transition crypto plan state after receipt ≡ ok tt)
        ↔ ((after ≡ out.0) × Agrees receipt out.1)
    execute_plan_audited = (verify-Agrees, Agrees-verify)

  -- An execution that returned, on a valid state with valid resources that recorded fewer than
  -- 10,000 nonces and plans, leaves a valid state with valid resources, with the resource ids in
  -- the same order.
  pub execute_plan-valid :
      (plan : RemediationPlan) (state : ControlState) (status : ApprovalStatus)
      (config : RemediationConfig) (request : ExecutionRequest) (token secret : List ℕ)
      (manifest : String) (out : ControlState × ExecutionReceipt)
      → state_is_valid state ≡ true
      → AllValid state.resources
      → length state.consumed_token_nonce_hashes < 10_000
      → length state.executed_plan_hashes < 10_000
      → execute_plan crypto plan state status config request token secret manifest ≡ ok out
      → (state_is_valid out.0 ≡ true)
        × AllValid out.0.resources
        × (ids out.0.resources ≡ ids state.resources)
  unfolding sorted
  execute_plan-valid plan state status config request token secret manifest out good valid
        few_nonces few_plans h =
      let did =
        execute_plan-Executed crypto plan state status config request token secret manifest out h in
      let old = state_is_valid-parts state good in
      let (_, _, _, consumed, hashes) = next_state-fields crypto state out.0 plan _ _ did.next in
      let moved = next_state-Moved crypto state out.0 plan _ _ did.next in
      let (index, _) = Runs-IsIndex crypto moved.runs (resource_at-IsIndex state.resources valid) in
      let (same, all_valid, _) =
        in_order-ids moved.updated (ids state.resources) out.0.resources index moved.rebuilt in
      let size : length out.0.resources ≡ length state.resources =
        sym (length-map resource_id out.0.resources)
        ∙ ap length same
        ∙ length-map resource_id state.resources in
      let nonce = out.1.token_nonce_sha256 in
      let nonces = length-sort_by text_le (state.consumed_token_nonce_hashes ++ nonce ∷ []) in
      let hashes_length =
        length-sort_by text_le (state.executed_plan_hashes ++ plan.plan_sha256 ∷ []) in
      (
        state_is_valid-from_parts out.0
            (record {
              some_resource = subst (λ n. leb 1 n ≡ true) (sym size) old.some_resource;
              few_resources = subst (λ n. leb n 500 ≡ true) (sym size) old.few_resources;
              ids = subst Distinct (sym same) old.ids;
              nonces = subst Distinct (sym consumed) (
                  Distinct-sort_by text_le _ (
                    Distinct-snoc state.consumed_token_nonce_hashes nonce old.nonces
                      (has_false→not_In _ _ did.permitted.new_nonce)));
              plans = subst Distinct (sym hashes) (
                  Distinct-sort_by text_le _ (
                    Distinct-snoc state.executed_plan_hashes plan.plan_sha256 old.plans
                      (has_false→not_In _ _ did.permitted.new_plan)));
            })
            (le→leb _ _ (
              omega (
                arith,
                ap length consumed,
                nonces,
                few_nonces,
                length-append state.consumed_token_nonce_hashes (nonce ∷ []),
              )))
            (le→leb _ _ (
              omega (
                arith,
                ap length hashes,
                hashes_length,
                few_plans,
                length-append state.executed_plan_hashes (plan.plan_sha256 ∷ []),
              ))),
        all_valid,
        same,
      )
