-- ===== src/Base/Lookup.antt =====
-- What the searches and the filters of lists find: `next`, comprehensions with a test, and lists
-- whose items differ in a key.
use mathlib.Core.Path.{◌≡◌, refl, ap, sym, ◌∙◌, subst}
use mathlib.Core.Logic.{inl, inr}
use mathlib.Core.Bool.{Bool, true}
use mathlib.Core.Option.{some}
use mathlib.Core.List.{List, [], ◌∷◌, ◌++◌, map}
use probabilistic_ai_inciden.Base.Tests.{Bool-cases}
use probabilistic_ai_inciden.Base.Lists.{find, keep, All}
use probabilistic_ai_inciden.Base.Membership.{In, Distinct, In-map, In-map_inv, In-append_right}

module _ {A : Type 0} where
  pub In-keep : (p : A → Bool) (xs : List A) (a : A) → In a (keep p xs) → In a xs × (p a ≡ true)
  In-keep p [] a m = absurd m
  In-keep p (x ∷ xs) a m = elim (Bool-cases (p x)) [
    | inr f ↦ let ih = In-keep p xs a (rw f at m) in (inr ih.0, ih.1)
    | inl t ↦ elim (rw t at m) [
      | inl e ↦ (inl e, ap p (sym e) ∙ t)
      | inr r ↦ let ih = In-keep p xs a r in (inr ih.0, ih.1)
    ]
  ]

  pub keep-In : (p : A → Bool) (xs : List A) (a : A) → In a xs → p a ≡ true → In a (keep p xs)
  keep-In p [] a m h = absurd m
  keep-In p (x ∷ xs) a (inl e) h = rw (ap p e ∙ h) (inl e)
  keep-In p (x ∷ xs) a (inr m) h = elim (Bool-cases (p x)) [
    | inl t ↦ rw t (inr (keep-In p xs a m h))
    | inr f ↦ rw f (keep-In p xs a m h)
  ]

  pub All-keep {κ} : (P : A → Type κ) (p : A → Bool) (xs : List A) → All P xs → All P (keep p xs)
  All-keep P p [] h = tt
  All-keep P p (x ∷ xs) h = elim (Bool-cases (p x)) [
    | inl t ↦ rw t (h.0, All-keep P p xs h.1)
    | inr f ↦ rw f (All-keep P p xs h.1)
  ]

  pub find-In : (p : A → Bool) (xs : List A) (a : A) → find p xs ≡ some a → In a xs × (p a ≡ true)
  find-In p [] a h = cc
  find-In p (x ∷ xs) a h = elim (Bool-cases (p x)) [
    | inr f ↦ let ih = find-In p xs a (rw f at h) in (inr ih.0, ih.1)
    | inl t ↦ let e : x ≡ a = cc (rw t at h) in (inl e, ap p (sym e) ∙ t)
  ]

  pub In-find :
      (p : A → Bool) (xs : List A) (a : A) → In a xs → p a ≡ true → (b : A) × (find p xs ≡ some b)
  In-find p [] a m h = absurd m
  In-find p (x ∷ xs) a m h = elim (Bool-cases (p x)) [
    | inl t ↦ (x, rw t refl)
    | inr f ↦ elim m [
      | inl e ↦ absurd (cc (f, ap p e, h))
      | inr r ↦ let ih = In-find p xs a r h in (ih.0, rw f ih.1)
    ]
  ]

  pub Distinct-middle : (xs : List A) (a : A) (ys : List A) → Distinct (xs ++ a ∷ ys) → ¬ In a xs
  Distinct-middle [] a ys d m = m
  Distinct-middle (x ∷ xs) a ys d (inl e) = d.0 (In-append_right x xs (a ∷ ys) (inl (sym e)))
  Distinct-middle (x ∷ xs) a ys d (inr m) = Distinct-middle xs a ys d.1 m

module _ {A B : Type 0} (key : A → B) where
  pub map-append : (xs ys : List A) → map key (xs ++ ys) ≡ map key xs ++ map key ys
  map-append [] ys = refl
  map-append (x ∷ xs) ys = ap (λ r. key x ∷ r) (map-append xs ys)

  -- Items with distinct keys are equal when their keys are.
  pub Distinct-injective :
      (xs : List A) (a b : A) → Distinct (map key xs) → In a xs → In b xs → key a ≡ key b → a ≡ b
  Distinct-injective [] a b d m k e = absurd m
  Distinct-injective (x ∷ xs) a b d (inl p) (inl q) e = sym p ∙ q
  Distinct-injective (x ∷ xs) a b d (inl p) (inr k) e =
      absurd (d.0 (subst (λ y. In y (map key xs)) (sym (ap key p ∙ e)) (In-map key b xs k)))
  Distinct-injective (x ∷ xs) a b d (inr m) (inl q) e =
      absurd (d.0 (subst (λ y. In y (map key xs)) (e ∙ sym (ap key q)) (In-map key a xs m)))
  Distinct-injective (x ∷ xs) a b d (inr m) (inr k) e = Distinct-injective xs a b d.1 m k e

  pub Distinct-keep :
      (p : A → Bool) (xs : List A) → Distinct (map key xs) → Distinct (map key (keep p xs))
  Distinct-keep p [] d = tt
  Distinct-keep p (x ∷ xs) d = elim (Bool-cases (p x)) [
    | inr f ↦ rw f (Distinct-keep p xs d.1)
    | inl t ↦ rw t (
      (λ m.
          let (a, in_kept, e) = In-map_inv key (key x) (keep p xs) m in
          d.0 (subst (λ y. In y (map key xs)) e (In-map key a xs (In-keep p xs a in_kept).0))),
      Distinct-keep p xs d.1,
    )
  ]
