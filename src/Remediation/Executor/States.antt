-- ===== src/Remediation/Executor/States.antt =====
-- The resources of a control state as a dictionary, and back in order: `_resource_index` and the
-- rebuilding of the list in executor.py.
use probabilistic_ai_inciden.Base.{
  ◌≡◌, ◌≢◌, refl, ap, sym, ◌∙◌, subst, String, true, none, some, List, [], ◌∷◌, map, inl, inr, All,
  ◌==◌, string_eq, beq→eq, eq→beq, ne→beq_false, Bool-cases, Option-cases, leb, length, &&_true,
  &&_intro, ok, ok-injective, >>=-eq-ok, or_raise-eq-ok, if◌then◌else◌,
}
use probabilistic_ai_inciden.Base.Membership.{
  In, In-map_inv, In-All, Distinct, is_unique, is_unique→Distinct, Distinct→is_unique,
}
use probabilistic_ai_inciden.Remediation.Models.{
  ControlResource, ControlState, resource_id, resource_is_valid, state_is_valid,
}
use probabilistic_ai_inciden.Remediation.Policy.{resource_at}
use probabilistic_ai_inciden.Remediation.Executor.Rollback.{IsIndex}
use probabilistic_ai_inciden.Remediation.Effects.{Index, in_order, key_error}

abbrev pub ids : List ControlResource → List String
ids = map resource_id

abbrev pub AllValid : List ControlResource → Type 0
AllValid = All (λ r. resource_is_valid r ≡ true)

resource_at-later :
    (r later : ControlResource) (rest : List ControlResource) (k : String)
    → resource_at rest k ≡ some later
    → resource_at (r ∷ rest) k ≡ some later
unfolding resource_at
resource_at-later r later rest k h = rw h

resource_at-here :
    (r : ControlResource) (rest : List ControlResource) (k : String)
    → resource_at rest k ≡ none
    → resource_at (r ∷ rest) k ≡ (if resource_id r == k then some r else none)
unfolding resource_at
resource_at-here r rest k h = rw h

resource_at-In :
    (rs : List ControlResource) (k : String) (r : ControlResource)
    → resource_at rs k ≡ some r
    → In r rs × (resource_id r ≡ k)
resource_at-In [] k r h = unfold resource_at in cc
resource_at-In (x ∷ rest) k r h = elim (Option-cases (resource_at rest k)) [
  | inr (later, e) ↦
      let same : later ≡ r = cc (sym (resource_at-later x later rest k e), h) in
      let ih = resource_at-In rest k r (e ∙ ap some same) in (inr ih.0, ih.1)
  | inl e ↦ elim (Bool-cases (resource_id x == k)) [
    | inl t ↦
        let same : x ≡ r = cc (resource_at-here x rest k e, t, h) in
        (inl same, ap resource_id (sym same) ∙ beq→eq _ _ t)
    | inr f ↦ absurd (cc (resource_at-here x rest k e, f, h))
  ]
]

pub resource_at-none :
    (rs : List ControlResource) (k : String) → ¬ In k (ids rs) → resource_at rs k ≡ none
resource_at-none [] k n = unfold resource_at in refl
resource_at-none (x ∷ rest) k n =
    resource_at-here x rest k (resource_at-none rest k (λ m. n (inr m)))
    ∙ (rw (ne→beq_false (resource_id x) k (λ e. n (inl e))))

pub resource_at-own :
    (rs : List ControlResource) (r : ControlResource)
    → Distinct (ids rs)
    → In r rs
    → resource_at rs (resource_id r) ≡ some r
resource_at-own [] r d m = absurd m
resource_at-own (x ∷ rest) r d (inl e) =
    subst (λ y. resource_at (x ∷ rest) (resource_id y) ≡ some y) e
      (resource_at-here x rest (resource_id x) (resource_at-none rest (resource_id x) d.0)
        ∙ (rw (eq→beq (resource_id x) (resource_id x) refl)))
resource_at-own (x ∷ rest) r d (inr m) =
    resource_at-later x r rest (resource_id r) (resource_at-own rest r d.1 m)

pub resource_at-some :
    (rs : List ControlResource) (k : String) → In k (ids rs) → resource_at rs k ≢ none
resource_at-some (x ∷ rest) k m h = elim (Option-cases (resource_at rest k)) [
  | inr (later, e) ↦ cc (h, resource_at-later x later rest k e)
  | inl e ↦ elim m [
    | inl here ↦ cc (h, resource_at-here x rest k e, eq→beq (resource_id x) k here)
    | inr there ↦ resource_at-some rest k there e
  ]
]
resource_at-some [] k m h = m

pub resource_at-IsIndex : (rs : List ControlResource) → AllValid rs → IsIndex (resource_at rs)
resource_at-IsIndex rs valid k r h =
    let (m, id) = resource_at-In rs k r h in
    (In-All (λ x. resource_is_valid x ≡ true) r rs valid m, id)

-- A list of resources with distinct ids is rebuilt from its dictionary.
in_order-part :
    (d : Index) (rs : List ControlResource)
    → ((r : ControlResource) → In r rs → d (resource_id r) ≡ some r)
    → in_order d (ids rs) ≡ ok rs
unfolding in_order
in_order-part d [] own = refl
in_order-part d (r ∷ rest) own =
    rw (own r (inl refl)) (rw (in_order-part d rest (λ s m. own s (inr m))))

pub in_order-own :
    (rs : List ControlResource) → Distinct (ids rs) → in_order (resource_at rs) (ids rs) ≡ ok rs
in_order-own rs d = in_order-part (resource_at rs) rs (λ r m. resource_at-own rs r d m)

pub in_order-same :
    (d e : Index) (keys : List String)
    → ((k : String) → d k ≡ e k)
    → in_order d keys ≡ in_order e keys
unfolding in_order
in_order-same d e [] same = refl
in_order-same d e (k ∷ rest) same = rw (same k) (rw (in_order-same d e rest same))

-- What is rebuilt has the keys in their order, and valid resources.
pub in_order-ids :
    (d : Index) (keys : List String) (rs : List ControlResource)
    → IsIndex d
    → in_order d keys ≡ ok rs
    → (ids rs ≡ keys) × AllValid rs × ((r : ControlResource) → In r rs → d (resource_id r) ≡ some r)
unfolding in_order
in_order-ids d [] rs index h =
    subst
      (λ xs.
        (ids xs ≡ [])
        × AllValid xs
        × ((r : ControlResource) → In r xs → d (resource_id r) ≡ some r))
      (ok-injective h) (refl, tt, λ r m. absurd m)
in_order-ids d (k ∷ keys) rs index h =
    let (r, there, h1) = or_raise-eq-ok (d k) key_error _ h in
    let (tail, rest, h2) = >>=-eq-ok (in_order d keys) _ h1 in
    let (same, valid, own) = in_order-ids d keys tail index rest in
    let (good, id) = index k r there in
    subst
      (λ xs.
        (ids xs ≡ k ∷ keys)
        × AllValid xs
        × ((s : ControlResource) → In s xs → d (resource_id s) ≡ some s))
      (ok-injective h2)
      (
        (λ i. id i ∷ same i),
        (good, valid),
        λ s m. elim m [
          | inl e ↦ subst (λ x. d (resource_id x) ≡ some x) e (ap d id ∙ there)
          | inr old ↦ own s old
        ],
      )

pub in_order-total :
    (d : Index) (keys : List String)
    → ((k : String) → In k keys → d k ≢ none)
    → (rs : List ControlResource) × (in_order d keys ≡ ok rs)
unfolding in_order
in_order-total d [] has_all = ([], refl)
in_order-total d (k ∷ keys) has_all = elim (Option-cases (d k)) [
  | inl e ↦ absurd (has_all k (inl refl) e)
  | inr (r, e) ↦
      let (rest, h) = in_order-total d keys (λ j m. has_all j (inr m)) in (r ∷ rest, rw e (rw h))
]

-- The dictionary of what was rebuilt is the one it was rebuilt from, if that has no other keys.
pub resource_at-in_order :
    (d : Index) (keys : List String) (rs : List ControlResource)
    → IsIndex d
    → Distinct keys
    → in_order d keys ≡ ok rs
    → ((k : String) → ¬ In k keys → d k ≡ none)
    → (k : String) → resource_at rs k ≡ d k
resource_at-in_order d keys rs index distinct h outside k =
    let (same, valid, own) = in_order-ids d keys rs index h in
    elim (Option-cases (resource_at rs k)) [
      | inr (r, e) ↦ let (m, id) = resource_at-In rs k r e in e ∙ sym (own r m) ∙ ap d id
      | inl e ↦
          e
          ∙ sym (
              outside k (λ m.
                let (r, at, id) = In-map_inv resource_id k rs (subst (In k) (sym same) m) in
                let there = resource_at-own rs r (subst Distinct (sym same) distinct) at in
                cc (e, there, id)))
    ]

-- What `state_is_valid` tests.
pub record StateParts (s : ControlState) : Type 0 where
  pub some_resource : leb 1 (length s.resources) ≡ true
  pub few_resources : leb (length s.resources) 500 ≡ true
  pub ids : Distinct (map resource_id s.resources)
  pub nonces : Distinct s.consumed_token_nonce_hashes
  pub plans : Distinct s.executed_plan_hashes

pub state_is_valid-parts : (s : ControlState) → state_is_valid s ≡ true → StateParts s
unfolding state_is_valid
state_is_valid-parts s h =
    let (h1, plans) = &&_true _ (is_unique s.executed_plan_hashes) h in
    let (h2, nonces) = &&_true _ (is_unique s.consumed_token_nonce_hashes) h1 in
    let (h3, unique) = &&_true _ (is_unique (map resource_id s.resources)) h2 in
    let (h4, _) = &&_true _ (leb (length s.executed_plan_hashes) 10_000) h3 in
    let (h5, _) = &&_true _ (leb (length s.consumed_token_nonce_hashes) 10_000) h4 in
    let (h6, few) = &&_true (leb 1 (length s.resources)) _ h5 in
    record {
      some_resource = h6;
      few_resources = few;
      ids = is_unique→Distinct (map resource_id s.resources) unique;
      nonces = is_unique→Distinct s.consumed_token_nonce_hashes nonces;
      plans = is_unique→Distinct s.executed_plan_hashes plans;
    }

pub state_is_valid-from_parts :
    (s : ControlState)
    → StateParts s
    → leb (length s.consumed_token_nonce_hashes) 10_000 ≡ true
    → leb (length s.executed_plan_hashes) 10_000 ≡ true
    → state_is_valid s ≡ true
unfolding state_is_valid
state_is_valid-from_parts s p n e =
    &&_intro
      (&&_intro
        (&&_intro (&&_intro (&&_intro (&&_intro p.some_resource p.few_resources) n) e)
          (Distinct→is_unique (map resource_id s.resources) p.ids))
        (Distinct→is_unique s.consumed_token_nonce_hashes p.nonces))
      (Distinct→is_unique s.executed_plan_hashes p.plans)
