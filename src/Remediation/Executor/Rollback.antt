-- ===== src/Remediation/Executor/Rollback.antt =====
-- The loop of executor.py, and the loop of the inverse actions after it.
use mathlib.Core.List.{reverse, reverse-cons, map-append}
use probabilistic_ai_inciden.Base.{
  ◌≡◌, ◌↔◌, refl, ap, sym, ◌∙◌, subst, String, true, none, some, List, [], ◌∷◌, ◌++◌, map, ◌⊎◌, inl,
  inr, ◌==◌, string_eq, beq→eq, beq_refl, Bool-cases, ok, ok-injective, >>=-eq-ok, or_raise-eq-ok,
}
use probabilistic_ai_inciden.Remediation.Models.{
  ControlResource, resource_id, resource_is_valid, RemediationAction, target_id,
}
use probabilistic_ai_inciden.Remediation.Models.Plan.{ActionExecutionReceipt}
use probabilistic_ai_inciden.Remediation.Config.{Crypto}
use probabilistic_ai_inciden.Remediation.Executor.Actions.{apply_action-Applied}
use probabilistic_ai_inciden.Remediation.Effects.{
  unknown_target, apply_action, Index, put, action_receipt, run_actions,
}
use probabilistic_ai_inciden.Remediation.Executor.{inverse_of}

-- Every entry of the dictionary is valid and stands under its own id.
abbrev pub IsIndex : Index → Type 0
IsIndex d =
    (k : String) (r : ControlResource)
    → d k ≡ some r
    → (resource_is_valid r ≡ true) × (resource_id r ≡ k)

-- Two dictionaries have the same keys.
abbrev pub SameKeys : Index → Index → Type 0
SameKeys d e = (k : String) → (d k ≡ none) ↔ (e k ≡ none)

put_self : (d : Index) (k : String) (r : ControlResource) → put d k r k ≡ some r
put_self d k r = rw (beq_refl k)

pub put-cases :
    (d : Index) (k j : String) (r : ControlResource)
    → ((k ≡ j) × (put d k r j ≡ some r)) ⊎ (put d k r j ≡ d j)
put-cases d k j r = elim (Bool-cases (k == j)) [
  | inl t ↦ inl (beq→eq k j t, rw t)
  | inr f ↦ inr (rw f)
]

put-IsIndex :
    (d : Index) (k : String) (r : ControlResource)
    → IsIndex d
    → resource_is_valid r ≡ true
    → resource_id r ≡ k
    → IsIndex (put d k r)
put-IsIndex d k r index valid id j s h = elim (put-cases d k j r) [
  | inl (e, at) ↦
      let same : r ≡ s = cc in
      (subst (λ x. resource_is_valid x ≡ true) same valid, ap resource_id (sym same) ∙ id ∙ e)
  | inr old ↦ index j s (sym old ∙ h)
]

put-SameKeys :
    (d : Index) (k : String) (r old : ControlResource) → d k ≡ some old → SameKeys (put d k r) d
put-SameKeys d k r old there j = elim (put-cases d k j r) [
  | inl (e, at) ↦ ((λ h. cc), (λ h. cc))
  | inr same ↦ ((λ h. sym same ∙ h), (λ h. same ∙ h))
]

-- Writing back what was there undoes a write.
put_back :
    (d e : Index) (k : String) (r old : ControlResource)
    → d k ≡ some old
    → ((j : String) → e j ≡ put d k r j)
    → (j : String) → put e k old j ≡ d j
put_back d e k r old there same j = elim (Bool-cases (k == j)) [
  | inl t ↦ rw t (sym there ∙ ap d (beq→eq k j t))
  | inr f ↦ rw f (same j ∙ (rw f))
]

-- A run of the loop, step by step.
pub data Runs (crypto : Crypto)
    : Index → List RemediationAction → Index → List ActionExecutionReceipt → Type 0 where
  done : {d : Index} → Runs crypto d [] d []
  step :
      {d d' : Index} {rest : List RemediationAction} {receipts : List ActionExecutionReceipt}
      (a : RemediationAction) (r r' : ControlResource) (inverse : RemediationAction)
      → d (target_id a) ≡ some r
      → apply_action a r ≡ ok (r', inverse)
      → Runs crypto (put d (target_id a) r') rest d' receipts
      → Runs crypto d (a ∷ rest) d' (action_receipt crypto a r r' inverse ∷ receipts)

module _ (crypto : Crypto) where
  pub run_actions_sound :
      (d : Index) (actions : List RemediationAction) (out : Index × List ActionExecutionReceipt)
      → run_actions crypto d actions ≡ ok out
      → Runs crypto d actions out.0 out.1
  unfolding run_actions
  run_actions_sound d [] out h =
      subst (λ (o : Index × List ActionExecutionReceipt). Runs crypto d [] o.0 o.1) (ok-injective h)
        done
  run_actions_sound d (a ∷ rest) out h =
      let (r, there, h1) = or_raise-eq-ok (d (target_id a)) (unknown_target (target_id a)) _ h in
      let (after, applied, h2) = >>=-eq-ok (apply_action a r) _ h1 in
      let (tail, ran, h3) =
        >>=-eq-ok (run_actions crypto (put d (target_id a) after.0) rest) _ h2 in
      subst (λ (o : Index × List ActionExecutionReceipt). Runs crypto d (a ∷ rest) o.0 o.1)
        (ok-injective h3)
        (step a r after.0 after.1 there applied
          (run_actions_sound (put d (target_id a) after.0) rest tail ran))

  pub run_actions_complete :
      {d d' : Index} {actions : List RemediationAction} {receipts : List ActionExecutionReceipt}
      → Runs crypto d actions d' receipts
      → run_actions crypto d actions ≡ ok (d', receipts)
  unfolding run_actions
  run_actions_complete done = refl
  run_actions_complete (step a r r' inverse there applied rest) =
      rw there (rw applied (rw (run_actions_complete rest)))

  Runs-append :
      {d d1 d2 : Index} {xs ys : List RemediationAction} {r1 r2 : List ActionExecutionReceipt}
      → Runs crypto d xs d1 r1
      → Runs crypto d1 ys d2 r2
      → Runs crypto d (xs ++ ys) d2 (r1 ++ r2)
  Runs-append done k = k
  Runs-append (step a r r' inverse there applied rest) k =
      step a r r' inverse there applied (Runs-append rest k)

  -- A run keeps the dictionary valid and its keys.
  pub Runs-IsIndex :
      {d d' : Index} {actions : List RemediationAction} {receipts : List ActionExecutionReceipt}
      → Runs crypto d actions d' receipts
      → IsIndex d
      → IsIndex d' × SameKeys d' d
  Runs-IsIndex done index = (index, λ k. ((λ h. h), (λ h. h)))
  Runs-IsIndex {d} (step a r r' inverse there applied rest) index =
      let fact = apply_action-Applied a r r' inverse applied in
      let (valid, id) = index (target_id a) r there in
      let ih =
        Runs-IsIndex rest
          (put-IsIndex d (target_id a) r' index (fact.valid valid) (fact.same_id ∙ id)) in
      let keys = put-SameKeys d (target_id a) r' r there in
      (ih.0, λ k. ((λ h. (keys k).0 ((ih.1 k).0 h)), (λ h. (ih.1 k).1 ((keys k).1 h))))

  -- The inverse actions of the receipts, last first, undo a run.
  pub Runs-rollback :
      {d d' : Index} {actions : List RemediationAction} {receipts : List ActionExecutionReceipt}
      → Runs crypto d actions d' receipts
      → IsIndex d
      → (e : Index) × (back : List ActionExecutionReceipt) × Runs crypto d'
          (map inverse_of (reverse receipts))
          e
          back
        × ((k : String) → e k ≡ d k)
  unfolding action_receipt
  Runs-rollback {d} done index = (d, [], done, λ k. refl)
  Runs-rollback {d} {d'} (step {receipts = receipts} a r r' inverse there applied rest) index =
      let fact = apply_action-Applied a r r' inverse applied in
      let (valid, id) = index (target_id a) r there in
      let (e, back, ran, same) =
        Runs-rollback rest
          (put-IsIndex d (target_id a) r' index (fact.valid valid) (fact.same_id ∙ id)) in
      let (again, undone) = fact.undone valid in
      let at : e (target_id inverse) ≡ some r' =
        ap e fact.same_target ∙ same (target_id a) ∙ put_self d (target_id a) r' in
      let last = step inverse r' r again at undone done in
      let order =
        ap (map inverse_of) (reverse-cons (action_receipt crypto a r r' inverse) receipts)
        ∙ map-append _ (reverse receipts) _ in
      (
        put e (target_id inverse) r,
        back ++ action_receipt crypto inverse r' r again ∷ [],
        subst
            (λ xs.
              Runs crypto d' xs (put e (target_id inverse) r)
                (back ++ action_receipt crypto inverse r' r again ∷ []))
            (sym order) (Runs-append ran last),
        λ k. ap (λ t. put e t r k) fact.same_target ∙ put_back d e (target_id a) r' r there same k,
      )
