-- ===== src/Remediation/Executor/Actions.antt =====
-- One action of executor.py: what it keeps, that its inverse undoes it, and that it applies exactly
-- where policy.py found nothing against it.
use probabilistic_ai_inciden.Base.{
  ◌≡◌, ◌↔◌, refl, ap, sym, ◌∙◌, subst, String, Bool, true, false, not, none, some, List, arith,
  ◌!=◌, string_eq, passes_ne, same→passes, not-false, &&_true, &&_intro, if◌then◌else◌, ok,
  ok-injective, reject_if-eq-ok, reject_if-false,
}
use probabilistic_ai_inciden.Base.Membership.{has}
use probabilistic_ai_inciden.Remediation.Models.{
  ControlResource, deployment, feature_flag, configuration, DeploymentResource, FeatureFlagResource,
  ConfigurationResource, resource_id, is_selection, resource_is_valid, RemediationAction,
  rollback_deployment, set_feature_flag, restore_configuration, target_id, bool_eq,
  RollbackDeploymentAction, SetFeatureFlagAction, RestoreConfigurationAction,
}
use probabilistic_ai_inciden.Remediation.Models.Plan.{Reason}
use probabilistic_ai_inciden.Remediation.Policy.{validate_action_state}
use probabilistic_ai_inciden.Remediation.Effects.{
  stale_precondition, unavailable_target, apply_action, inverse_rollback, inverse_flag,
  inverse_restore,
}

is_selection-move :
    (current target : String) (available : List String)
    → is_selection current available ≡ true
    → has available target ≡ true
    → is_selection target available ≡ true
is_selection-move current target available v h = &&_intro (&&_true _ (has available current) v).0 h

is_selection-has :
    (current : String) (available : List String)
    → is_selection current available ≡ true
    → has available current ≡ true
is_selection-has current available v = (&&_true _ (has available current) v).1

-- What one action does to its resource.
pub record Applied (a : RemediationAction) (r r' : ControlResource) (inverse : RemediationAction)
    : Type 0 where
  pub same_id : resource_id r' ≡ resource_id r
  pub valid : resource_is_valid r ≡ true → resource_is_valid r' ≡ true
  pub same_target : target_id inverse ≡ target_id a
  pub undone :
      resource_is_valid r ≡ true
      → (back : RemediationAction) × (apply_action inverse r' ≡ ok (r, back))

-- An action whose preconditions hold applies.
module _ (a : RollbackDeploymentAction) (r : DeploymentResource) where
  applies_deployment :
      r.current_revision ≡ a.expected_current_revision
      → has r.available_revisions a.target_revision ≡ true
      → (back : RemediationAction) × (apply_action (rollback_deployment a) (deployment r)
          ≡ ok (deployment (record r { current_revision = a.target_revision }), back))
  unfolding apply_action
  applies_deployment e t =
      (_, reject_if-false _ _ _ (same→passes _ _ e) (reject_if-false _ _ _ (ap not t) refl))

module _ (a : SetFeatureFlagAction) (r : FeatureFlagResource) where
  applies_flag :
      r.enabled ≡ a.expected_enabled
      → (back : RemediationAction) × (apply_action (set_feature_flag a) (feature_flag r)
          ≡ ok (feature_flag (record r { enabled = a.desired_enabled }), back))
  unfolding apply_action
  applies_flag e = (_, reject_if-false _ _ _ (same→passes _ _ e) refl)

module _ (a : RestoreConfigurationAction) (r : ConfigurationResource) where
  applies_configuration :
      r.current_version ≡ a.expected_current_version
      → has r.available_versions a.target_version ≡ true
      → (back : RemediationAction) × (apply_action (restore_configuration a) (configuration r)
          ≡ ok (configuration (record r { current_version = a.target_version }), back))
  unfolding apply_action
  applies_configuration e t =
      (_, reject_if-false _ _ _ (same→passes _ _ e) (reject_if-false _ _ _ (ap not t) refl))

selected_available :
    (current expected : String) (available : List String)
    → current ≡ expected
    → is_selection current available ≡ true
    → has available expected ≡ true
selected_available current expected available e v =
    subst (λ x. has available x ≡ true) e (is_selection-has current available v)

pub apply_action-Applied :
    (a : RemediationAction) (r r' : ControlResource) (inverse : RemediationAction)
    → apply_action a r ≡ ok (r', inverse)
    → Applied a r r' inverse
unfolding apply_action
apply_action-Applied (rollback_deployment a) (deployment r) r' inverse h =
    let (fresh, h1) =
      reject_if-eq-ok (r.current_revision != a.expected_current_revision) stale_precondition _ h in
    let (there, h2) =
      reject_if-eq-ok (not (has r.available_revisions a.target_revision)) unavailable_target _ h1 in
    let e : r.current_revision ≡ a.expected_current_revision = passes_ne _ _ fresh in
    subst (λ out. Applied (rollback_deployment a) (deployment r) out.0 out.1) (ok-injective h2)
      (record {
        same_id = refl;
        valid = λ v.
            is_selection-move r.current_revision a.target_revision r.available_revisions v
              (not-false _ there);
        same_target = refl;
        undone = λ v.
            let (back, p) =
              applies_deployment (inverse_rollback a) _ refl
                (selected_available _ _ r.available_revisions e v) in
            (back, p ∙ (λ i. ok (deployment (record r { current_revision = sym e i }), back)));
      })
apply_action-Applied (set_feature_flag a) (feature_flag r) r' inverse h =
    let (fresh, h1) = reject_if-eq-ok (r.enabled != a.expected_enabled) stale_precondition _ h in
    let e : r.enabled ≡ a.expected_enabled = passes_ne _ _ fresh in
    subst (λ out. Applied (set_feature_flag a) (feature_flag r) out.0 out.1) (ok-injective h1)
      (record {
        same_id = refl;
        valid = λ v. v;
        same_target = refl;
        undone = λ v.
            let (back, p) = applies_flag (inverse_flag a) _ refl in
            (back, p ∙ (λ i. ok (feature_flag (record r { enabled = sym e i }), back)));
      })
apply_action-Applied (restore_configuration a) (configuration r) r' inverse h =
    let (fresh, h1) =
      reject_if-eq-ok (r.current_version != a.expected_current_version) stale_precondition _ h in
    let (there, h2) =
      reject_if-eq-ok (not (has r.available_versions a.target_version)) unavailable_target _ h1 in
    let e : r.current_version ≡ a.expected_current_version = passes_ne _ _ fresh in
    subst (λ out. Applied (restore_configuration a) (configuration r) out.0 out.1) (ok-injective h2)
      (record {
        same_id = refl;
        valid = λ v.
            is_selection-move r.current_version a.target_version r.available_versions v
              (not-false _ there);
        same_target = refl;
        undone = λ v.
            let (back, p) =
              applies_configuration (inverse_restore a) _ refl
                (selected_available _ _ r.available_versions e v) in
            (back, p ∙ (λ i. ok (configuration (record r { current_version = sym e i }), back)));
      })
apply_action-Applied (rollback_deployment a) (feature_flag r) r' inverse h = cc
apply_action-Applied (rollback_deployment a) (configuration r) r' inverse h = cc
apply_action-Applied (set_feature_flag a) (deployment r) r' inverse h = cc
apply_action-Applied (set_feature_flag a) (configuration r) r' inverse h = cc
apply_action-Applied (restore_configuration a) (deployment r) r' inverse h = cc
apply_action-Applied (restore_configuration a) (feature_flag r) r' inverse h = cc

-- `if stale then … else if missing then … else none` found nothing.
two_tests :
    (stale missing : Bool) (r s : Reason)
    → (if stale then some r else if missing then some s else none) ≡ none
    → (stale ≡ false) × (missing ≡ false)
two_tests stale missing r s h = ground arith

-- The policy found nothing against an action at a resource exactly when the executor applies it.
pub validate_action_state_iff :
    (a : RemediationAction) (r : ControlResource)
    → (validate_action_state a (some r) ≡ none)
      ↔ ((out : ControlResource × RemediationAction) × (apply_action a r ≡ ok out))
unfolding validate_action_state apply_action
validate_action_state_iff (rollback_deployment a) (deployment r) = (
  (λ h.
      let e =
        two_tests (r.current_revision != a.expected_current_revision)
          (not (has r.available_revisions a.target_revision)) _ _ h in
      (_, reject_if-false _ _ _ e.0 (reject_if-false _ _ _ e.1 refl))),
  (λ done.
      let (fresh, h1) =
        reject_if-eq-ok (r.current_revision != a.expected_current_revision) stale_precondition _
          done.1 in
      let (there, h2) =
        reject_if-eq-ok (not (has r.available_revisions a.target_revision)) unavailable_target _
          h1 in
      rw (fresh, there)),
)
validate_action_state_iff (set_feature_flag a) (feature_flag r) = (
  (λ h.
      let e = two_tests (r.enabled != a.expected_enabled) false _ (Reason.satisfied) h in
      (_, reject_if-false _ _ _ e.0 refl)),
  (λ done.
      let (fresh, h1) =
        reject_if-eq-ok (r.enabled != a.expected_enabled) stale_precondition _ done.1 in
      rw fresh),
)
validate_action_state_iff (restore_configuration a) (configuration r) = (
  (λ h.
      let e =
        two_tests (r.current_version != a.expected_current_version)
          (not (has r.available_versions a.target_version)) _ _ h in
      (_, reject_if-false _ _ _ e.0 (reject_if-false _ _ _ e.1 refl))),
  (λ done.
      let (fresh, h1) =
        reject_if-eq-ok (r.current_version != a.expected_current_version) stale_precondition _
          done.1 in
      let (there, h2) =
        reject_if-eq-ok (not (has r.available_versions a.target_version)) unavailable_target _ h1 in
      rw (fresh, there)),
)
validate_action_state_iff (rollback_deployment a) (feature_flag r) = ((λ h. cc), (λ d. cc (d.1)))
validate_action_state_iff (rollback_deployment a) (configuration r) = ((λ h. cc), (λ d. cc (d.1)))
validate_action_state_iff (set_feature_flag a) (deployment r) = ((λ h. cc), (λ d. cc (d.1)))
validate_action_state_iff (set_feature_flag a) (configuration r) = ((λ h. cc), (λ d. cc (d.1)))
validate_action_state_iff (restore_configuration a) (deployment r) = ((λ h. cc), (λ d. cc (d.1)))
validate_action_state_iff (restore_configuration a) (feature_flag r) = ((λ h. cc), (λ d. cc (d.1)))
