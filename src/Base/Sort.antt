-- ===== src/Base/Sort.antt =====
-- Python's `sorted` on texts, which compares code points.
use Prim.Native.String.{String, compare}
use Prim.Native.Nat.{suc}
use mathlib.Core.Path.{◌≡◌, ◌∙◌, ap, sym, refl}
use mathlib.Core.Logic.{◌⊎◌, inl, inr}
use mathlib.Core.Bool.{Bool, true, false}
use mathlib.Core.List.{List, [], ◌∷◌}
use native.Mathlib.Omega.{arith}
use text.Mathlib.Text.{is_le}
use probabilistic_ai_inciden.Base.Tests.{Bool-cases, if◌then◌else◌}
use probabilistic_ai_inciden.Base.Lists.{length}
use probabilistic_ai_inciden.Base.Membership.{In, Distinct}

abbrev pub text_le : String → String → Bool
text_le s t = is_le (compare s t)

module _ {A : Type 0} (le : A → A → Bool) where
  unfoldable pub insort : A → List A → List A
  insort a [] = a ∷ []
  insort a (x ∷ xs) = let rest = insort a xs in if le a x then a ∷ x ∷ xs else x ∷ rest

  -- `sorted(xs)` by an order given as a test
  unfoldable pub sort_by : List A → List A
  unfolding insort
  sort_by [] = []
  sort_by (x ∷ xs) = insort x (sort_by xs)

  In-insort : (a b : A) (xs : List A) → In b (insort a xs) → (a ≡ b) ⊎ In b xs
  unfolding insort
  In-insort a b [] h = h
  In-insort a b (x ∷ xs) h = ground (arith, In-insort a b xs)

  insort-In : (a b : A) (xs : List A) → (a ≡ b) ⊎ In b xs → In b (insort a xs)
  unfolding insort
  insort-In a b [] h = h
  insort-In a b (x ∷ xs) h = ground (arith, insort-In a b xs)

  Distinct-insort : (a : A) (xs : List A) → ¬ In a xs → Distinct xs → Distinct (insort a xs)
  unfolding insort
  Distinct-insort a [] n d = ((λ m. m), tt)
  Distinct-insort a (x ∷ xs) n d = elim (Bool-cases (le a x)) [
    | inl t ↦ rw t (n, d)
    | inr f ↦ rw f (fresh, Distinct-insort a xs (λ m. n (inr m)) d.1)
  ]
    where
      fresh : ¬ In x (insort a xs)
      fresh m = elim (In-insort a x xs m) [ inl e ↦ n (inl (sym e)) | inr k ↦ d.0 k ]

  length-insort : (a : A) (xs : List A) → length (insort a xs) ≡ suc (length xs)
  unfolding insort
  length-insort a [] = ap suc (ground arith)
  length-insort a (x ∷ xs) = ground (arith, length-insort a xs)

  pub In-sort_by : (b : A) (xs : List A) → In b (sort_by xs) → In b xs
  unfolding sort_by
  In-sort_by b [] h = h
  In-sort_by b (x ∷ xs) h = elim (In-insort x b (sort_by xs) h) [
    | inl e ↦ inl e
    | inr m ↦ inr (In-sort_by b xs m)
  ]

  pub sort_by-In : (b : A) (xs : List A) → In b xs → In b (sort_by xs)
  unfolding sort_by
  sort_by-In b [] h = h
  sort_by-In b (x ∷ xs) (inl e) = insort-In x b (sort_by xs) (inl e)
  sort_by-In b (x ∷ xs) (inr m) = insort-In x b (sort_by xs) (inr (sort_by-In b xs m))

  pub Distinct-sort_by : (xs : List A) → Distinct xs → Distinct (sort_by xs)
  unfolding sort_by
  Distinct-sort_by [] d = tt
  Distinct-sort_by (x ∷ xs) d =
      Distinct-insort x (sort_by xs) (λ m. d.0 (In-sort_by x xs m)) (Distinct-sort_by xs d.1)

  pub length-sort_by : (xs : List A) → length (sort_by xs) ≡ length xs
  unfolding sort_by
  length-sort_by [] = ground arith
  length-sort_by (x ∷ xs) = length-insort x (sort_by xs) ∙ ap suc (length-sort_by xs)

module _ {A : Type 0} (le : A → A → Bool) where
  -- No item is after one that it should be before.
  abbrev pub IsSorted : List A → Type 0
  IsSorted [] = Unit
  IsSorted (x ∷ []) = Unit
  IsSorted (x ∷ y ∷ xs) = (le x y ≡ true) × IsSorted (y ∷ xs)

  sort_by_sorted : (xs : List A) → IsSorted xs → sort_by le xs ≡ xs
  unfolding sort_by insort
  sort_by_sorted [] h = refl
  sort_by_sorted (x ∷ []) h = refl
  sort_by_sorted (x ∷ y ∷ xs) h = rw (sort_by_sorted (y ∷ xs) h.1, h.0) refl

  module _ (total : (a b : A) → le a b ≡ false → le b a ≡ true) where
    insort_from :
        (a x : A) (xs : List A) → le x a ≡ true → IsSorted (x ∷ xs) → IsSorted (x ∷ insort le a xs)
    unfolding insort
    insort_from a x [] h s = (h, tt)
    insort_from a x (y ∷ ys) h s = elim (Bool-cases (le a y)) [
      | inl t ↦ rw t (h, (t, s.1))
      | inr f ↦ rw f (s.0, insort_from a y ys (total a y f) s.1)
    ]

    insort-IsSorted : (a : A) (xs : List A) → IsSorted xs → IsSorted (insort le a xs)
    unfolding insort
    insort-IsSorted a [] s = tt
    insort-IsSorted a (x ∷ xs) s = elim (Bool-cases (le a x)) [
      | inl t ↦ rw t (t, s)
      | inr f ↦ rw f (insort_from a x xs (total a x f) s)
    ]

    pub sort_by-IsSorted : (xs : List A) → IsSorted (sort_by le xs)
    unfolding sort_by
    sort_by-IsSorted [] = tt
    sort_by-IsSorted (x ∷ xs) = insort-IsSorted x (sort_by le xs) (sort_by-IsSorted xs)

    pub sort_by_twice : (xs : List A) → sort_by le (sort_by le xs) ≡ sort_by le xs
    sort_by_twice xs = sort_by_sorted (sort_by le xs) (sort_by-IsSorted xs)

-- `sorted(texts)`
unfoldable pub sorted : List String → List String
unfolding sort_by
sorted = sort_by text_le
