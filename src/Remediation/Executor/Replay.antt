-- ===== src/Remediation/Executor/Replay.antt =====
-- What `execute_plan` of executor.py did when it returned, and its protection against replay.
use mathlib.Core.Logic.{inl, inr}
use probabilistic_ai_inciden.Base.{
  ℕ, ◌+◌, ◌≡◌, refl, ap, sym, ◌∙◌, subst, String, false, not, List, [], ◌∷◌, ◌++◌, map, arith, ◌&&◌,
  leb, length, nat_eq, string_eq, ◌!=◌, passes_ne, ok, >>=-eq-ok, reject_if-eq-ok, ok-injective,
  map_err,
}
use probabilistic_ai_inciden.Base.Membership.{
  In, In-append_left, In-append_right, has, has_false→not_In, Distinct,
}
use probabilistic_ai_inciden.Base.Sort.{sorted, sort_by-In, text_le}
use probabilistic_ai_inciden.Remediation.Models.{ControlState, resource_id}
use probabilistic_ai_inciden.Remediation.Models.Plan.{
  RemediationPlan, ApprovalStatus, ExecutionRequest, ExecutionReceipt, ActionExecutionReceipt,
  awaiting_approval, plan_status_eq,
}
use probabilistic_ai_inciden.Remediation.Config.{RemediationConfig, Crypto}
use probabilistic_ai_inciden.Remediation.Policy.{resource_at, verify_plan}
use probabilistic_ai_inciden.Remediation.Token.{verify_token}
use probabilistic_ai_inciden.Remediation.Effects.{
  run_actions, in_order, next_state, not_allowed, state_differs, incident_differs, already_executed,
  nonce_consumed, token_rejected, invalid_receipt,
}
use probabilistic_ai_inciden.Remediation.Executor.{
  new_receipt, authorize_execution, execute_plan, nonce_hash, policy_failed,
}

pub sorted-In : (x : String) (xs : List String) → In x xs → In x (sorted xs)
unfolding sorted
sorted-In x xs m = sort_by-In text_le x xs m

-- What the tests before the loop establish.
pub record Permitted (crypto : Crypto) (plan : RemediationPlan) (state : ControlState)
    (nonce : String) : Type 0 where
  pub same_incident : state.incident_id ≡ plan.incident_id
  pub new_plan : has state.executed_plan_hashes plan.plan_sha256 ≡ false
  pub new_nonce : has state.consumed_token_nonce_hashes nonce ≡ false

-- What a returned execution did.
pub record Executed (crypto : Crypto) (plan : RemediationPlan) (state : ControlState)
    (after : ControlState) (receipt : ExecutionReceipt) : Type 0 where
  pub permitted : Permitted crypto plan state receipt.token_nonce_sha256
  pub next :
      next_state crypto state plan receipt.token_nonce_sha256 ≡ ok (after, receipt.action_receipts)
  pub same_plan : receipt.plan_sha256 ≡ plan.plan_sha256
  pub same_id : receipt.remediation_id ≡ plan.remediation_id
  pub same_incident : receipt.incident_id ≡ plan.incident_id
  pub payload : receipt.after_state_payload_sha256 ≡ crypto.state_digest after

module _ (crypto : Crypto) where
  authorize_execution-Permitted :
      (plan : RemediationPlan) (state : ControlState) (status : ApprovalStatus)
      (config : RemediationConfig) (request : ExecutionRequest) (token secret : List ℕ)
      (manifest nonce : String)
      → authorize_execution crypto plan state status config request token secret manifest ≡ ok nonce
      → Permitted crypto plan state nonce
  unfolding authorize_execution
  authorize_execution-Permitted plan state status config request token secret manifest nonce h =
      let (u, _, h1) = >>=-eq-ok (map_err policy_failed (verify_plan crypto plan)) _ h in
      let (_, h2) = reject_if-eq-ok (plan.status != awaiting_approval) not_allowed _ h1 in
      let (_, h3) =
        reject_if-eq-ok (manifest != plan.control_state_manifest_sha256) state_differs _ h2 in
      let (same, h4) =
        reject_if-eq-ok (state.incident_id != plan.incident_id) incident_differs _ h3 in
      let (fresh, h5) =
        reject_if-eq-ok (has state.executed_plan_hashes plan.plan_sha256) already_executed _ h4 in
      let (claims, _, h6) =
        >>=-eq-ok
          (map_err token_rejected
            (verify_token crypto token plan status config request.executed_at secret))
          _ h5 in
      let (unused, h7) =
        reject_if-eq-ok (has state.consumed_token_nonce_hashes (nonce_hash crypto claims))
          nonce_consumed _ h6 in
      record {
        same_incident = passes_ne _ _ same;
        new_plan = fresh;
        new_nonce =
            subst (λ n. has state.consumed_token_nonce_hashes n ≡ false) (ok-injective h7) unused;
      }

  pub execute_plan-Executed :
      (plan : RemediationPlan) (state : ControlState) (status : ApprovalStatus)
      (config : RemediationConfig) (request : ExecutionRequest) (token secret : List ℕ)
      (manifest : String) (out : ControlState × ExecutionReceipt)
      → execute_plan crypto plan state status config request token secret manifest ≡ ok out
      → Executed crypto plan state out.0 out.1
  unfolding execute_plan new_receipt
  execute_plan-Executed plan state status config request token secret manifest out h =
      let (nonce, allowed, h1) =
        >>=-eq-ok
          (authorize_execution crypto plan state status config request token secret manifest) _ h in
      let (after, moved, h2) = >>=-eq-ok (next_state crypto state plan nonce) _ h1 in
      let (_, h3) =
        reject_if-eq-ok (not (leb 1 (length after.1) && leb (length after.1) 10)) invalid_receipt _
          h2 in
      subst (λ (o : ControlState × ExecutionReceipt). Executed crypto plan state o.0 o.1)
        (ok-injective h3)
        (record {
          permitted =
              authorize_execution-Permitted plan state status config request token secret manifest
                nonce allowed;
          next = moved;
          same_plan = refl;
          same_id = refl;
          same_incident = refl;
          payload = refl;
        })

  -- The fields of the next state that do not depend on the actions.
  pub next_state-fields :
      (state after : ControlState) (plan : RemediationPlan) (nonce : String)
      (receipts : List ActionExecutionReceipt)
      → next_state crypto state plan nonce ≡ ok (after, receipts)
      → (after.state_id ≡ state.state_id)
        × (after.incident_id ≡ state.incident_id)
        × (after.generation ≡ state.generation + 1)
        × (after.consumed_token_nonce_hashes
            ≡ sorted (state.consumed_token_nonce_hashes ++ nonce ∷ []))
        × (after.executed_plan_hashes
            ≡ sorted (state.executed_plan_hashes ++ plan.plan_sha256 ∷ []))
  unfolding next_state
  next_state-fields state after plan nonce receipts h =
      let (out, _, h1) =
        >>=-eq-ok (run_actions crypto (resource_at state.resources) plan.actions) _ h in
      let (resources, _, h2) = >>=-eq-ok (in_order out.0 (map resource_id state.resources)) _ h1 in
      let e = ok-injective h2 in
      let same = ap (λ (o : ControlState × List ActionExecutionReceipt). o.0) e in
      subst
        (λ (s : ControlState).
          (s.state_id ≡ state.state_id)
          × (s.incident_id ≡ state.incident_id)
          × (s.generation ≡ state.generation + 1)
          × (s.consumed_token_nonce_hashes
              ≡ sorted (state.consumed_token_nonce_hashes ++ nonce ∷ []))
          × (s.executed_plan_hashes ≡ sorted (state.executed_plan_hashes ++ plan.plan_sha256 ∷ [])))
        same (refl, refl, refl, refl, refl)

-- A sequence of executions that returned, each on the state the one before left; the newest
-- receipt first.
pub data History (crypto : Crypto) (start : ControlState)
    : List ExecutionReceipt → ControlState → Type 0 where
  none_yet : History crypto start [] start
  executed :
      {receipts : List ExecutionReceipt} {state : ControlState} (plan : RemediationPlan)
      (status : ApprovalStatus) (config : RemediationConfig) (request : ExecutionRequest)
      (token secret : List ℕ) (manifest : String) (out : ControlState × ExecutionReceipt)
      → History crypto start receipts state
      → execute_plan crypto plan state status config request token secret manifest ≡ ok out
      → History crypto start (out.1 ∷ receipts) out.0

abbrev pub nonces : List ExecutionReceipt → List String
nonces = map (λ (r : ExecutionReceipt). r.token_nonce_sha256)

abbrev pub plans : List ExecutionReceipt → List String
plans = map (λ (r : ExecutionReceipt). r.plan_sha256)

module _ (crypto : Crypto) (start : ControlState) where
  -- What ran before is recorded in the state.
  History-recorded :
      {receipts : List ExecutionReceipt} {state : ControlState}
      → History crypto start receipts state
      → ((x : String) → In x (nonces receipts) → In x state.consumed_token_nonce_hashes)
        × ((x : String) → In x (plans receipts) → In x state.executed_plan_hashes)
  History-recorded none_yet = ((λ x m. absurd m), (λ x m. absurd m))
  History-recorded
        (executed {receipts} {state} plan status config request token secret manifest out past h) =
      let ih = History-recorded past in
      let done =
        execute_plan-Executed crypto plan state status config request token secret manifest out h in
      let (_, _, _, consumed, hashes) =
        next_state-fields crypto state out.0 plan out.1.token_nonce_sha256 out.1.action_receipts
          done.next in
      (
        (λ x m. subst (In x) (sym consumed) (
            sorted-In x _ (elim m [
              | inl e ↦ In-append_right x state.consumed_token_nonce_hashes _ (inl e)
              | inr old ↦ In-append_left x state.consumed_token_nonce_hashes _ (ih.0 x old)
            ]))),
        (λ x m. subst (In x) (sym hashes) (
            sorted-In x _ (elim m [
              | inl e ↦
                  In-append_right x state.executed_plan_hashes _ (inl (sym done.same_plan ∙ e))
              | inr old ↦ In-append_left x state.executed_plan_hashes _ (ih.1 x old)
            ]))),
      )

  -- In every sequence of executions from a state, however the plans, approvals, tokens and times
  -- of each are chosen, no two have a plan hash or a token nonce hash in common, and the
  -- generation grew by the number of the executions.
  pub History-no_replay :
      {receipts : List ExecutionReceipt} {state : ControlState}
      → History crypto start receipts state
      → Distinct (nonces receipts)
        × Distinct (plans receipts)
        × (state.generation ≡ start.generation + length receipts)
  History-no_replay none_yet = (tt, tt, omega arith)
  History-no_replay
        (executed {receipts} {state} plan status config request token secret manifest out past h) =
      let (n, p, g) = History-no_replay past in
      let seen = History-recorded past in
      let done =
        execute_plan-Executed crypto plan state status config request token secret manifest out h in
      let (_, _, generation, _, _) =
        next_state-fields crypto state out.0 plan out.1.token_nonce_sha256 out.1.action_receipts
          done.next in
      (
        ((λ m. has_false→not_In _ _ done.permitted.new_nonce (seen.0 _ m)), n),
        (
          (λ m.
              has_false→not_In _ _ done.permitted.new_plan
                (subst (λ x. In x state.executed_plan_hashes) done.same_plan (seen.1 _ m))),
          p,
        ),
        omega (arith, generation, g),
      )
