-- ===== src/Remediation/Executor/Progress.antt =====
-- What policy.py lets through, executor.py can apply.
use probabilistic_ai_inciden.Base.{
  ◌≡◌, ◌≢◌, refl, ap, sym, ◌∙◌, subst, String, true, none, some, List, [], ◌∷◌, map, inl, inr, All,
  All-weaken, Option-cases, string_eq, ok, &&_true,
}
use probabilistic_ai_inciden.Base.Membership.{
  In, In-map, In-map_inv, In-All, All-of_In, Distinct, is_unique, is_unique→Distinct,
}
use probabilistic_ai_inciden.Investigation.Report.{InvestigationReport}
use probabilistic_ai_inciden.Remediation.Models.{
  ActionType, deployment_rollback, feature_flag_set, configuration_restore, ControlResource,
  deployment, feature_flag, configuration, ControlState, RemediationAction, rollback_deployment,
  set_feature_flag, restore_configuration, action_type, target_id,
}
use probabilistic_ai_inciden.Remediation.Models.Plan.{
  RemediationPlan, RemediationProposal, proposal_is_valid, target, target_eq,
  ActionExecutionReceipt,
}
use probabilistic_ai_inciden.Remediation.Config.{RemediationConfig, Crypto}
use probabilistic_ai_inciden.Remediation.Policy.{resource_at, validate_action_state}
use probabilistic_ai_inciden.Remediation.Policy.Gates.{Authorized, ActionGates}
use probabilistic_ai_inciden.Remediation.Effects.{Index, put, next_state}
use probabilistic_ai_inciden.Remediation.Executor.Actions.{validate_action_state_iff}
use probabilistic_ai_inciden.Remediation.Executor.Rollback.{
  Runs, done, step, run_actions_complete, Runs-IsIndex, put-cases,
}
use probabilistic_ai_inciden.Remediation.Executor.States.{
  ids, AllValid, resource_at-IsIndex, resource_at-some, in_order-total,
}
use probabilistic_ai_inciden.Remediation.Executor.Undo.{next_state-from_Runs}

-- The policy finds nothing against the action in the dictionary.
abbrev Applicable : Index → RemediationAction → Type 0
Applicable d a = validate_action_state a (d (target_id a)) ≡ none

kind : ControlResource → ActionType
kind (deployment r) = deployment_rollback
kind (feature_flag r) = feature_flag_set
kind (configuration r) = configuration_restore

same_kind :
    (a : RemediationAction) (r : ControlResource)
    → validate_action_state a (some r) ≡ none
    → action_type a ≡ kind r
unfolding validate_action_state kind
same_kind (rollback_deployment a) (deployment r) h = refl
same_kind (set_feature_flag a) (feature_flag r) h = refl
same_kind (restore_configuration a) (configuration r) h = refl
same_kind (rollback_deployment a) (feature_flag r) h = cc
same_kind (rollback_deployment a) (configuration r) h = cc
same_kind (set_feature_flag a) (deployment r) h = cc
same_kind (set_feature_flag a) (configuration r) h = cc
same_kind (restore_configuration a) (deployment r) h = cc
same_kind (restore_configuration a) (feature_flag r) h = cc

found :
    (d : Index) (a : RemediationAction)
    → Applicable d a
    → (r : ControlResource) × (d (target_id a) ≡ some r)
unfolding validate_action_state
found d a h = elim (Option-cases (d (target_id a))) [
  | inr there ↦ there
  | inl e ↦ absurd (cc (rw e at h))
]

-- Two applicable actions on one resource have the same target.
same_target :
    (d : Index) (a b : RemediationAction)
    → Applicable d a
    → Applicable d b
    → target_id a ≡ target_id b
    → target a ≡ target b
same_target d a b h k e =
    let (r, there) = found d a h in
    let of_a = same_kind a r (rw (there) at h) in
    let of_b = same_kind b r (rw (sym (ap d e) ∙ there) at k) in λ i. ((of_a ∙ sym of_b) i, e i)

distinct_ids :
    (d : Index) (actions : List RemediationAction)
    → All (Applicable d) actions
    → Distinct (map target actions)
    → Distinct (map target_id actions)
distinct_ids d [] h k = tt
distinct_ids d (a ∷ rest) h k = (
  (λ m.
      let (b, at, e) = In-map_inv target_id (target_id a) rest m in
      k.0 (
        subst (λ t. In t (map target rest))
          (same_target d b a (In-All (Applicable d) b rest h.1 at) h.0 e)
          (In-map target b rest at))),
  distinct_ids d rest h.1 k.1,
)

Applicable-put :
    (d : Index) (a b : RemediationAction) (r : ControlResource)
    → target_id a ≢ target_id b
    → Applicable d b
    → Applicable (put d (target_id a) r) b
Applicable-put d a b r apart h = elim (put-cases d (target_id a) (target_id b) r) [
  | inl (e, _) ↦ absurd (apart e)
  | inr same ↦ ap (validate_action_state b) same ∙ h
]

module _ (crypto : Crypto) where
  Runs-total :
      (d : Index) (actions : List RemediationAction)
      → All (Applicable d) actions
      → Distinct (map target_id actions)
      → (d' : Index) × (receipts : List ActionExecutionReceipt) × Runs crypto d actions d' receipts
  Runs-total d [] h k = (d, [], done)
  Runs-total d (a ∷ rest) h k =
      let (r, there) = found d a h.0 in
      let (out, applied) = (validate_action_state_iff a r).0 (rw (there) at h.0) in
      let later = All-of_In rest (λ b m.
        Applicable-put d a b out.0
          (λ e. k.0 (subst (λ t. In t (map target_id rest)) (sym e) (In-map target_id b rest m)))
          (In-All (Applicable d) b rest h.1 m)) in
      let (d', receipts, runs) = Runs-total (put d (target_id a) out.0) rest later k.1 in
      (d', _, step a r out.0 out.1 there applied runs)

  -- A plan with the actions of a valid proposal that passes every gate of the policy on a state
  -- with valid resources can be run on that state: no action fails, and the next state exists.
  pub next_state_total :
      (report : InvestigationReport) (state : ControlState) (proposal : RemediationProposal)
      (config : RemediationConfig) (plan : RemediationPlan) (nonce : String)
      → AllValid state.resources
      → proposal_is_valid proposal ≡ true
      → Authorized report state proposal config
      → plan.actions ≡ proposal.actions
      → (out : ControlState × List ActionExecutionReceipt) × (next_state crypto state plan nonce
          ≡ ok out)
  unfolding proposal_is_valid
  next_state_total report state proposal config plan nonce valid good gates same =
      let first = resource_at-IsIndex state.resources valid in
      let applicable =
        All-weaken {P = ActionGates report state config}
          {Q = Applicable (resource_at state.resources)} (λ a g. g.applicable) proposal.actions
          gates.action_gates in
      let unique =
        is_unique→Distinct (map target proposal.actions)
          (&&_true _ (is_unique (map target proposal.actions)) good).1 in
      let (d, receipts, runs) =
        Runs-total (resource_at state.resources) proposal.actions applicable
          (distinct_ids (resource_at state.resources) proposal.actions applicable unique) in
      let (_, keys) = Runs-IsIndex crypto runs first in
      let (resources, built) =
        in_order-total d (ids state.resources)
          (λ k m e. resource_at-some state.resources k m ((keys k).0 e)) in
      let (out, next, _) =
        next_state-from_Runs crypto state plan nonce d receipts resources
          (run_actions_complete crypto
            (subst (λ xs. Runs crypto (resource_at state.resources) xs d receipts) (sym same) runs))
          built in
      (out, next)
