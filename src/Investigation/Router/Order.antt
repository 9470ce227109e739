-- ===== src/Investigation/Router/Order.antt =====
-- The order in which src/paic/investigation/router.py tries its routes.
use probabilistic_ai_inciden.Base.{
  ℕ, zero, suc, ◌+◌, ◌-◌, ◌≤◌, ◌<◌, ◌≡◌, ◌↔◌, refl, ap, List, [], ◌∷◌, ◌++◌, ◌⊎◌, inl, inr, arith,
  length, ltb, Bool-cases,
}
use probabilistic_ai_inciden.Base.Membership.{
  In, In-append, In-append_left, In-append_right, Distinct,
}
use probabilistic_ai_inciden.Investigation.Router.{count_up, ordered}

In-count_up : (i s n : ℕ) → (In i (count_up s n)) ↔ ((s ≤ i) × (i < s + n))
In-count_up i s zero = ((λ m. absurd m), (λ h. absurd (omega (arith, h))))
In-count_up i s (suc n) = (
  (λ m. elim m [
    | inl e ↦ (omega (arith, e), omega (arith, e))
    | inr later ↦ let h = (In-count_up i (suc s) n).0 later in (omega (arith, h), omega (arith, h))
  ]),
  (λ h. elim (first_or_later h) [
    | inl e ↦ inl e
    | inr later ↦ inr ((In-count_up i (suc s) n).1 later)
  ]),
)
  where
    first_or_later : (s ≤ i) × (i < s + suc n) → (s ≡ i) ⊎ ((suc s ≤ i) × (i < suc s + n))
    first_or_later h = ground (arith, h)

pub length-count_up : (s n : ℕ) → length (count_up s n) ≡ n
length-count_up s zero = omega arith
length-count_up s (suc n) = ap suc (length-count_up (suc s) n)

Distinct-count_up : (s n : ℕ) → Distinct (count_up s n)
Distinct-count_up s zero = tt
Distinct-count_up s (suc n) = (
  (λ m. let h = (In-count_up s (suc s) n).0 m in absurd (omega (arith, h))),
  Distinct-count_up (suc s) n,
)

Distinct-append :
    (xs ys : List ℕ)
    → Distinct xs
    → Distinct ys
    → ((i : ℕ) → In i xs → ¬ In i ys)
    → Distinct (xs ++ ys)
Distinct-append [] ys d e apart = e
Distinct-append (x ∷ xs) ys d e apart = (
  (λ m. elim (In-append x xs ys m) [
    | inl there ↦ d.0 there
    | inr other ↦ apart x (inl refl) other
  ]),
  Distinct-append xs ys d.1 e (λ i m. apart i (inr m)),
)

-- With a preferred index of the routes or their end, the order of `complete` names each route
-- exactly once.
pub ordered-Distinct :
    (preferred routes : ℕ)
    → preferred ≤ routes
    → Distinct (ordered preferred routes)
      × ((i : ℕ) → (In i (ordered preferred routes)) ↔ (i < routes))
unfolding ordered
ordered-Distinct p n h = (
  Distinct-append (count_up p (n - p)) (count_up 0 p) (Distinct-count_up p (n - p))
      (Distinct-count_up 0 p)
      (λ i m k.
        let a = (In-count_up i p (n - p)).0 m in
        let b = (In-count_up i 0 p).0 k in absurd (omega (arith, a, b))),
  λ i. (
    (λ m. elim (In-append i (count_up p (n - p)) (count_up 0 p) m) [
      | inl l ↦ let a = (In-count_up i p (n - p)).0 l in omega (arith, a)
      | inr r ↦ let b = (In-count_up i 0 p).0 r in omega (arith, b)
    ]),
    (λ small. elim (Bool-cases (ltb i p)) [
      | inl t ↦
          In-append_right i (count_up p (n - p)) (count_up 0 p)
            ((In-count_up i 0 p).1 (omega arith, ground arith))
      | inr f ↦
          In-append_left i (count_up p (n - p)) (count_up 0 p)
            ((In-count_up i p (n - p)).1 (ground arith, omega arith))
    ]),
  ),
)
