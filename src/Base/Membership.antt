-- ===== src/Base/Membership.antt =====
-- Membership and distinctness as tests: Python's `x in xs`, sets built from lists, and the
-- comparison `len(xs) != len(set(xs))` of the validators.
use mathlib.Core.Path.{◌≡◌, refl, ap, sym, subst}
use mathlib.Core.Logic.{◌⊎◌, ◌↔◌, inl, inr}
use mathlib.Core.Bool.{Bool, true, false, ◌||◌}
use mathlib.Core.List.{List, [], ◌∷◌, ◌++◌, map}
use native.Mathlib.Omega.{arith}
use Prim.Native.Nat.{suc, ◌≤◌}
use probabilistic_ai_inciden.Base.Tests.{
  Eq, ◌==◌, nat_beq, nat_beq_iff, Bool-cases, beq→eq, eq→beq, if◌then◌else◌,
}
use probabilistic_ai_inciden.Base.Lists.{length, All}

module _ {A : Type 0} where
  -- The item is one of the list's.
  abbrev pub In : A → List A → Type 0
  In a [] = ⊥
  In a (x ∷ xs) = (x ≡ a) ⊎ In a xs

  -- No item stands twice.
  abbrev pub Distinct : List A → Type 0
  Distinct [] = Unit
  Distinct (x ∷ xs) = (¬ In x xs) × Distinct xs

  -- Every item of the first list is one of the second's.
  abbrev pub Subset : List A → List A → Type 0
  Subset xs ys = All (λ a. In a ys) xs

  pub In-append_left : (a : A) (xs ys : List A) → In a xs → In a (xs ++ ys)
  In-append_left a [] ys h = absurd h
  In-append_left a (x ∷ xs) ys (inl e) = inl e
  In-append_left a (x ∷ xs) ys (inr h) = inr (In-append_left a xs ys h)

  pub In-append_right : (a : A) (xs ys : List A) → In a ys → In a (xs ++ ys)
  In-append_right a [] ys h = h
  In-append_right a (x ∷ xs) ys h = inr (In-append_right a xs ys h)

  pub In-append : (a : A) (xs ys : List A) → In a (xs ++ ys) → In a xs ⊎ In a ys
  In-append a [] ys h = inr h
  In-append a (x ∷ xs) ys (inl e) = inl (inl e)
  In-append a (x ∷ xs) ys (inr h) = elim (In-append a xs ys h) [
    | inl l ↦ inl (inr l)
    | inr r ↦ inr r
  ]

  pub In-All {κ} : (P : A → Type κ) (a : A) (xs : List A) → All P xs → In a xs → P a
  In-All P a [] h m = absurd m
  In-All P a (x ∷ xs) h (inl e) = subst P e h.0
  In-All P a (x ∷ xs) h (inr m) = In-All P a xs h.1 m

  pub All-of_In {κ} : {P : A → Type κ} (xs : List A) → ((a : A) → In a xs → P a) → All P xs
  All-of_In [] f = tt
  All-of_In (x ∷ xs) f = (f x (inl refl), All-of_In xs (λ a m. f a (inr m)))

  pub Distinct-snoc : (xs : List A) (a : A) → Distinct xs → ¬ In a xs → Distinct (xs ++ a ∷ [])
  Distinct-snoc [] a d n = ((λ m. m), tt)
  Distinct-snoc (x ∷ xs) a d n = (fresh, Distinct-snoc xs a d.1 (λ m. n (inr m)))
    where
      fresh : ¬ In x (xs ++ a ∷ [])
      fresh m = elim (In-append x xs (a ∷ []) m) [
        | inl l ↦ d.0 l
        | inr (inl e) ↦ n (inl (sym e))
        | inr (inr z) ↦ z
      ]

  pub In-++ : (a : A) (xs ys : List A) → In a (xs ++ ys) ↔ (In a xs ⊎ In a ys)
  In-++ a xs ys = (
    In-append a xs ys,
    λ m. elim m [ inl l ↦ In-append_left a xs ys l | inr r ↦ In-append_right a xs ys r ],
  )

module _ {A B : Type 0} where
  pub In-map : (f : A → B) (a : A) (xs : List A) → In a xs → In (f a) (map f xs)
  In-map f a [] h = absurd h
  In-map f a (x ∷ xs) (inl e) = inl (ap f e)
  In-map f a (x ∷ xs) (inr h) = inr (In-map f a xs h)

  pub In-map_inv :
      (f : A → B) (b : B) (xs : List A) → In b (map f xs) → (a : A) × In a xs × (f a ≡ b)
  In-map_inv f b [] h = absurd h
  In-map_inv f b (x ∷ xs) (inl e) = (x, inl refl, e)
  In-map_inv f b (x ∷ xs) (inr h) = let r = In-map_inv f b xs h in (r.0, inr r.1, r.2)

module _ {A : Type 0} ⦃e : Eq A⦄ where
  -- `a in xs`
  abbrev pub has : List A → A → Bool
  has [] a = false
  has (x ∷ xs) a = x == a || has xs a

  -- `set(xs)`, as the list of its items
  abbrev pub to_set : List A → List A
  to_set [] = []
  to_set (x ∷ xs) = let rest = to_set xs in if has xs x then rest else x ∷ rest

  -- `len(xs) == len(set(xs))`
  abbrev pub is_unique : List A → Bool
  is_unique xs = nat_beq (length xs) (length (to_set xs))

  -- `set(xs).issubset(ys)`
  abbrev pub is_subset : List A → List A → Bool
  is_subset [] ys = true
  is_subset (x ∷ xs) ys = let rest = is_subset xs ys in if has ys x then rest else false

  pub has→In : (xs : List A) (a : A) → has xs a ≡ true → In a xs
  has→In [] a h = cc
  has→In (x ∷ xs) a h = elim (Bool-cases (x == a)) [
    | inl t ↦ inl (beq→eq x a t)
    | inr f ↦ inr (has→In xs a (rw (f) at h))
  ]

  pub In→has : (xs : List A) (a : A) → In a xs → has xs a ≡ true
  In→has [] a h = absurd h
  In→has (x ∷ xs) a (inl p) = rw (eq→beq x a p)
  In→has (x ∷ xs) a (inr m) = elim (Bool-cases (x == a)) [
    | inl t ↦ rw t
    | inr f ↦ rw f (In→has xs a m)
  ]

  pub has_false→not_In : (xs : List A) (a : A) → has xs a ≡ false → ¬ In a xs
  has_false→not_In xs a h m = cc (h, In→has xs a m)

  pub not_In→has_false : (xs : List A) (a : A) → ¬ In a xs → has xs a ≡ false
  not_In→has_false xs a n = elim (Bool-cases (has xs a)) [
    | inl t ↦ absurd (n (has→In xs a t))
    | inr f ↦ f
  ]

  pub to_set-In : (xs : List A) (a : A) → In a (to_set xs) → In a xs
  to_set-In [] a m = m
  to_set-In (x ∷ xs) a m = elim (Bool-cases (has xs x)) [
    | inl t ↦ inr (to_set-In xs a (rw t at m))
    | inr f ↦ elim (rw f at m) [ inl e ↦ inl e | inr r ↦ inr (to_set-In xs a r) ]
  ]

  pub In-to_set : (xs : List A) (a : A) → In a xs → In a (to_set xs)
  In-to_set [] a m = m
  In-to_set (x ∷ xs) a m = elim (Bool-cases (has xs x)) [
    | inr f ↦ rw f (elim m [ inl e ↦ inl e | inr r ↦ inr (In-to_set xs a r) ])
    | inl t ↦ rw t (elim m [
      | inl e ↦ In-to_set xs a (subst (λ y. In y xs) e (has→In xs x t))
      | inr r ↦ In-to_set xs a r
    ])
  ]

  pub to_set-Distinct : (xs : List A) → Distinct (to_set xs)
  to_set-Distinct [] = tt
  to_set-Distinct (x ∷ xs) = elim (Bool-cases (has xs x)) [
    | inl t ↦ rw t (to_set-Distinct xs)
    | inr f ↦ rw f ((λ m. has_false→not_In xs x f (to_set-In xs x m)), to_set-Distinct xs)
  ]

  pub length-to_set-le : (xs : List A) → length (to_set xs) ≤ length xs
  length-to_set-le [] = omega arith
  length-to_set-le (x ∷ xs) = ground (arith, length-to_set-le xs)

  pub is_unique→Distinct : (xs : List A) → is_unique xs ≡ true → Distinct xs
  is_unique→Distinct [] h = tt
  is_unique→Distinct (x ∷ xs) h = elim (Bool-cases (has xs x)) [
    | inl t ↦ absurd (ground (arith, length-to_set-le xs))
    | inr f ↦ (has_false→not_In xs x f, is_unique→Distinct xs (ground arith))
  ]

  pub length-to_set : (xs : List A) → Distinct xs → length (to_set xs) ≡ length xs
  length-to_set [] d = refl
  length-to_set (x ∷ xs) d = rw (not_In→has_false xs x d.0) (ap suc (length-to_set xs d.1))

  pub to_set_same : (xs : List A) → Distinct xs → to_set xs ≡ xs
  to_set_same [] d = refl
  to_set_same (x ∷ xs) d = rw (not_In→has_false xs x d.0) (ap (λ ys. x ∷ ys) (to_set_same xs d.1))

  pub Distinct→is_unique : (xs : List A) → Distinct xs → is_unique xs ≡ true
  Distinct→is_unique xs d = (nat_beq_iff _ _).1 (sym (length-to_set xs d))

  pub is_subset→Subset : (xs ys : List A) → is_subset xs ys ≡ true → Subset xs ys
  is_subset→Subset [] ys h = tt
  is_subset→Subset (x ∷ xs) ys h = elim (Bool-cases (has ys x)) [
    | inl t ↦ (has→In ys x t, is_subset→Subset xs ys (ground arith))
    | inr f ↦ absurd (ground arith)
  ]

  pub Subset→is_subset : (xs ys : List A) → Subset xs ys → is_subset xs ys ≡ true
  Subset→is_subset [] ys h = refl
  Subset→is_subset (x ∷ xs) ys h = rw (In→has ys x h.0) (Subset→is_subset xs ys h.1)
