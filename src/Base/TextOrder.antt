-- ===== src/Base/TextOrder.antt =====
-- The order that Python's `sorted` compares texts by is total.
use Prim.Native.Nat.{ℕ, zero, suc, Ordering, compare as compare_ℕ}
use Prim.Native.Nat.compare as compare_ℕ
use Prim.Native.String.{String, [], ◌∷◌, compare, then}
use Prim.Native.String.compare
use Prim.Native.Char.{code}
use mathlib.Core.Path.{◌≡◌, ◌∙◌, ap, sym, refl}
use mathlib.Core.List.{List}
use mathlib.Core.Bool.{true, false}
use text.Mathlib.Text.{is_le}
use probabilistic_ai_inciden.Base.Sort.{text_le, sort_by_twice, sorted}

abbrev opposite : Ordering → Ordering
opposite Ordering.lt = Ordering.gt
opposite Ordering.eq = Ordering.eq
opposite Ordering.gt = Ordering.lt

number_opposite : (m n : ℕ) → compare_ℕ n m ≡ opposite (compare_ℕ m n)
number_opposite zero zero = compare_ℕ.zero-zero ∙ sym (ap opposite compare_ℕ.zero-zero)
number_opposite zero (suc n) = compare_ℕ.suc-zero n ∙ sym (ap opposite (compare_ℕ.zero-suc n))
number_opposite (suc m) zero = compare_ℕ.zero-suc m ∙ sym (ap opposite (compare_ℕ.suc-zero m))
number_opposite (suc m) (suc n) =
    compare_ℕ.suc-suc n m ∙ number_opposite m n ∙ sym (ap opposite (compare_ℕ.suc-suc m n))

then-opposite : (a b : Ordering) → then (opposite a) (opposite b) ≡ opposite (then a b)
then-opposite Ordering.lt b = refl
then-opposite Ordering.eq b = refl
then-opposite Ordering.gt b = refl

text_opposite : (s t : String) → compare t s ≡ opposite (compare s t)
text_opposite [] [] = compare.nil-nil ∙ sym (ap opposite compare.nil-nil)
text_opposite [] (d ∷ t) = compare.cons-nil d t ∙ sym (ap opposite (compare.nil-cons d t))
text_opposite (c ∷ s) [] = compare.nil-cons c s ∙ sym (ap opposite (compare.cons-nil c s))
text_opposite (c ∷ s) (d ∷ t) =
    compare.cons-cons d c t s
    ∙ (λ i. then (number_opposite (code c) (code d) i) (text_opposite s t i))
    ∙ then-opposite (compare_ℕ (code c) (code d)) (compare s t)
    ∙ sym (ap opposite (compare.cons-cons c d s t))

le_of_opposite : (o : Ordering) → is_le o ≡ false → is_le (opposite o) ≡ true
le_of_opposite Ordering.lt h = cc
le_of_opposite Ordering.eq h = cc
le_of_opposite Ordering.gt h = refl

pub text_le_total : (s t : String) → text_le s t ≡ false → text_le t s ≡ true
text_le_total s t h = ap is_le (text_opposite s t) ∙ le_of_opposite (compare s t) h

-- Sorting texts that are sorted leaves them.
pub sorted_twice : (xs : List String) → sorted (sorted xs) ≡ sorted xs
unfolding sorted
sorted_twice = sort_by_twice text_le text_le_total
