-- ===== src/Remediation/StateStore/Initial.antt =====
-- `initialize` of state_store.py.
use native.Mathlib.Decide.{ℕ_discrete}
use probabilistic_ai_inciden.Base.{
  ◌≡◌, ◌↔◌, refl, subst, String, nat_eq, ok, ok-injective, ◌!=◌, reject_if-eq-ok, reject_if-false,
  passes_ne, same→passes,
}
use probabilistic_ai_inciden.Base.Discrete.{String-discrete}
use probabilistic_ai_inciden.Remediation.Models.{ControlState}
use probabilistic_ai_inciden.Remediation.Config.{Crypto}
use probabilistic_ai_inciden.Remediation.Generation.{
  Name-discrete, ControlStateStore, empty, directory_is_safe, generation_differs,
}
use probabilistic_ai_inciden.Remediation.StateStore.{
  current_of, generation_roots, range, is_contiguous, check_receipt, initialize, validate,
}

-- A store that is initialized from a state validates exactly when the state's generation is 0.
pub initialize-validates_iff :
    (crypto : Crypto) (state : ControlState) (manifest : String) (store : ControlStateStore)
    → initialize state manifest empty ≡ ok store
    → (validate crypto store ≡ ok tt) ↔ (state.generation ≡ 0)
unfolding initialize validate current_of directory_is_safe generation_roots range is_contiguous
    check_receipt Name-discrete String-discrete ℕ_discrete
initialize-validates_iff crypto state manifest store h =
    subst (λ s. (validate crypto s ≡ ok tt) ↔ (state.generation ≡ 0)) (ok-injective h)
      (
        λ v. passes_ne _ _ (reject_if-eq-ok (state.generation != 0) generation_differs _ v).0,
        λ e. reject_if-false _ _ _ (same→passes _ _ e) refl,
      )
