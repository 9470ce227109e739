-- ===== src/Remediation/Executor/Undo.antt =====
-- The rollback proposal of executor.py, and the reconstruction of an execution.
use probabilistic_ai_inciden.Base.{
  ℕ, ◌+◌, ◌≡◌, refl, ap, sym, ◌∙◌, subst, String, true, none, List, [], ◌∷◌, ◌++◌, map, nat_eq,
  string_eq, ◌!=◌, ok, >>=-eq-ok, reject_if-eq-ok, ok-injective,
}
use probabilistic_ai_inciden.Base.Membership.{In, Distinct}
use mathlib.Core.List.{reverse}
use probabilistic_ai_inciden.Base.Sort.{sorted}
use probabilistic_ai_inciden.Remediation.Models.{
  ControlState, control_state_eq, ControlResource, RemediationAction, state_is_valid,
}
use probabilistic_ai_inciden.Remediation.Models.Plan.{
  Instant, RemediationPlan, RemediationProposal, ApprovalStatus, ExecutionRequest, ExecutionReceipt,
  ActionExecutionReceipt, receipts_eq,
}
use probabilistic_ai_inciden.Remediation.Config.{RemediationConfig, Crypto}
use probabilistic_ai_inciden.Remediation.Policy.{resource_at}
use probabilistic_ai_inciden.Remediation.Effects.{
  Index, run_actions, in_order, next_state, other_plan,
}
use probabilistic_ai_inciden.Remediation.Executor.{
  inverse_of, execute_plan, build_rollback_proposal,
}
use probabilistic_ai_inciden.Remediation.Executor.Rollback.{
  SameKeys, Runs, run_actions_sound, run_actions_complete, Runs-IsIndex, Runs-rollback,
}
use probabilistic_ai_inciden.Remediation.Executor.States.{
  ids, AllValid, state_is_valid-parts, resource_at-none, resource_at-IsIndex, in_order-own,
  in_order-same, in_order-ids, resource_at-in_order,
}
use probabilistic_ai_inciden.Remediation.Executor.Replay.{execute_plan-Executed}

module _ (crypto : Crypto) where
  -- The two dictionaries and the list behind a next state.
  pub record Moved (state after : ControlState) (plan : RemediationPlan)
      (receipts : List ActionExecutionReceipt) : Type 0 where
    pub updated : Index
    pub runs : Runs crypto (resource_at state.resources) plan.actions updated receipts
    pub rebuilt : in_order updated (ids state.resources) ≡ ok after.resources

  pub next_state-Moved :
      (state after : ControlState) (plan : RemediationPlan) (nonce : String)
      (receipts : List ActionExecutionReceipt)
      → next_state crypto state plan nonce ≡ ok (after, receipts)
      → Moved state after plan receipts
  unfolding next_state
  next_state-Moved state after plan nonce receipts h =
      let (out, ran, h1) =
        >>=-eq-ok (run_actions crypto (resource_at state.resources) plan.actions) _ h in
      let (resources, built, h2) = >>=-eq-ok (in_order out.0 (ids state.resources)) _ h1 in
      subst (λ (o : ControlState × List ActionExecutionReceipt). Moved state o.0 plan o.1)
        (ok-injective h2)
        (record {
          updated = out.0;
          runs = run_actions_sound crypto (resource_at state.resources) plan.actions out ran;
          rebuilt = built;
        })

  next_state-fixed :
      (state : ControlState) (plan : RemediationPlan) (nonce : String) (d : Index)
      (receipts : List ActionExecutionReceipt) (resources : List ControlResource)
      → run_actions crypto (resource_at state.resources) plan.actions ≡ ok (d, receipts)
      → in_order d (ids state.resources) ≡ ok resources
      → next_state crypto state plan nonce
        ≡ ok (
          record state {
            generation = state.generation + 1;
            resources = resources;
            consumed_token_nonce_hashes = sorted (state.consumed_token_nonce_hashes ++ nonce ∷ []);
            executed_plan_hashes = sorted (state.executed_plan_hashes ++ plan.plan_sha256 ∷ []);
          },
          receipts,
        )
  unfolding next_state
  next_state-fixed state plan nonce d receipts resources ran built = rw ran (rw built)

  pub next_state-from_Runs :
      (state : ControlState) (plan : RemediationPlan) (nonce : String) (d : Index)
      (receipts : List ActionExecutionReceipt) (resources : List ControlResource)
      → run_actions crypto (resource_at state.resources) plan.actions ≡ ok (d, receipts)
      → in_order d (ids state.resources) ≡ ok resources
      → (out : ControlState × List ActionExecutionReceipt) × (next_state crypto state plan nonce
          ≡ ok out)
        × (out.0.resources ≡ resources)
  next_state-from_Runs state plan nonce d receipts resources ran built =
      (_, next_state-fixed state plan nonce d receipts resources ran built, refl)

  -- Equal dictionaries, equal runs up to the dictionary.
  Runs-same :
      {d d' e : Index} {actions : List RemediationAction} {receipts : List ActionExecutionReceipt}
      → Runs crypto d actions d' receipts
      → ((k : String) → e k ≡ d k)
      → Runs crypto e actions d' receipts
  Runs-same {d} {d'} {e} {actions} {receipts} runs same =
      subst (λ i. Runs crypto i actions d' receipts) (λ i k. sym (same k) i) runs

  outside_none :
      (d : Index) (rs : List ControlResource)
      → SameKeys d (resource_at rs)
      → (k : String) → ¬ In k (ids rs)
      → d k ≡ none
  outside_none d rs keys k n = (keys k).1 (resource_at-none rs k n)

  -- A run of actions and of the inverses of its receipts, last first, restores the resources.
  Moved-undone :
      (state after : ControlState) (plan back : RemediationPlan) (nonce : String)
      (receipts : List ActionExecutionReceipt)
      → Distinct (ids state.resources)
      → AllValid state.resources
      → Moved state after plan receipts
      → back.actions ≡ map inverse_of (reverse receipts)
      → (out : ControlState × List ActionExecutionReceipt) × (next_state crypto after back nonce
          ≡ ok out)
        × (out.0.resources ≡ state.resources)
  Moved-undone state after plan back nonce receipts distinct valid moved actions =
      let first = resource_at-IsIndex state.resources valid in
      let (index, keys) = Runs-IsIndex crypto moved.runs first in
      let (restored, again, runs, same) = Runs-rollback crypto moved.runs first in
      let read =
        resource_at-in_order moved.updated (ids state.resources) after.resources index distinct
          moved.rebuilt (outside_none moved.updated state.resources keys) in
      let (same_ids, _, _) =
        in_order-ids moved.updated (ids state.resources) after.resources index moved.rebuilt in
      let runs_after =
        subst (λ xs. Runs crypto (resource_at after.resources) xs restored again) (sym actions)
          (Runs-same runs read) in
      next_state-from_Runs after back nonce restored again state.resources
        (run_actions_complete crypto runs_after)
        (ap (in_order restored) same_ids
          ∙ in_order-same restored (resource_at state.resources) (ids state.resources) same
          ∙ in_order-own state.resources distinct)

  build_rollback_proposal-actions :
      (plan : RemediationPlan) (receipt : ExecutionReceipt) (by : String) (at : Instant)
      (proposal : RemediationProposal)
      → build_rollback_proposal plan receipt by at ≡ ok proposal
      → proposal.actions ≡ map inverse_of (reverse receipt.action_receipts)
  unfolding build_rollback_proposal
  build_rollback_proposal-actions plan receipt by at proposal h =
      let (_, h1) = reject_if-eq-ok (receipt.plan_sha256 != plan.plan_sha256) other_plan _ h in
      sym (ap (λ (p : RemediationProposal). p.actions) (ok-injective h1))

  -- After an execution that returned, on a valid state with valid resources, a plan with the
  -- actions of the proposal that `build_rollback_proposal` makes of the receipt can be run on the
  -- state the execution left, and the resources are then exactly those before the execution.
  pub execute_plan-rollback :
      (plan : RemediationPlan) (state : ControlState) (status : ApprovalStatus)
      (config : RemediationConfig) (request : ExecutionRequest) (token secret : List ℕ)
      (manifest : String) (out : ControlState × ExecutionReceipt)
      → state_is_valid state ≡ true
      → AllValid state.resources
      → execute_plan crypto plan state status config request token secret manifest ≡ ok out
      → (requested_by : String) (requested_at : Instant) (proposal : RemediationProposal)
      → build_rollback_proposal plan out.1 requested_by requested_at ≡ ok proposal
      → (back : RemediationPlan) (nonce : String) → back.actions ≡ proposal.actions
      → (undone : ControlState × List ActionExecutionReceipt) × (next_state crypto out.0 back nonce
          ≡ ok undone)
        × (undone.0.resources ≡ state.resources)
  execute_plan-rollback plan state status config request token secret manifest out good valid h by
        at proposal built back nonce same =
      let did =
        execute_plan-Executed crypto plan state status config request token secret manifest out h in
      Moved-undone state out.0 plan back nonce out.1.action_receipts
        (state_is_valid-parts state good).ids valid (next_state-Moved state out.0 plan _ _ did.next)
        (same ∙ build_rollback_proposal-actions plan out.1 by at proposal built)
