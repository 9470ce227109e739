-- ===== src/Tools/Bounded/Limits.antt =====
-- What `_bounded` of gateway.py keeps of a list.
use probabilistic_ai_inciden.Base.{
  ◌≡◌, ◌⊎◌, ◌↔◌, refl, ap, sym, ◌∙◌, subst, ℕ, zero, suc, ◌≤◌, ◌<◌, min, Bool, true, false, ltb,
  leb, leb→le, leb_false→lt, ltb→lt, ltb_false→le, lt→ltb, List, [], ◌∷◌, inl, inr, arith,
  Bool-cases, length, ok, if◌then◌else◌,
}
use probabilistic_ai_inciden.Tools.Json.{Json, array, items_of, array_of, Python}
use probabilistic_ai_inciden.Tools.Bounded.{take, pop, nonempty, fit, list_bytes, bounded}

module _ {A : Type 0} where
  length-take : (n : ℕ) (xs : List A) → length (take n xs) ≡ min n (length xs)
  length-take zero xs = omega arith
  length-take (suc n) [] = omega arith
  length-take (suc n) (x ∷ xs) = omega (arith, length-take n xs)

  pop-take : (n : ℕ) (xs : List A) → suc n ≤ length xs → pop (take (suc n) xs) ≡ take n xs
  pop-take zero (x ∷ xs) h = refl
  pop-take (suc n) (x ∷ []) h = absurd (omega arith)
  pop-take (suc n) (x ∷ y ∷ xs) h = ap (λ r. x ∷ r) (pop-take n (y ∷ xs) (omega arith))
  pop-take zero [] h = absurd (omega arith)
  pop-take (suc n) [] h = absurd (omega arith)

  take-all : (n : ℕ) (xs : List A) → length xs ≤ n → take n xs ≡ xs
  take-all zero [] h = refl
  take-all (suc n) [] h = refl
  take-all zero (x ∷ xs) h = absurd (omega arith)
  take-all (suc n) (x ∷ xs) h = ap (λ r. x ∷ r) (take-all n xs (omega arith))

  take-min : (n : ℕ) (xs : List A) → take (min n (length xs)) xs ≡ take n xs
  take-min n xs = elim (Bool-cases (leb n (length xs))) [
    | inl t ↦
        let le = leb→le n (length xs) t in
        let same : min n (length xs) ≡ n = omega (arith, le) in ap (λ k. take k xs) same
    | inr f ↦
        let lt = leb_false→lt n (length xs) f in
        let same : min n (length xs) ≡ length xs = omega (arith, lt) in
        ap (λ k. take k xs) same
        ∙ take-all (length xs) xs (omega arith)
        ∙ sym (take-all n xs (omega (arith, lt)))
  ]

-- The longest start of the rows, within the count, that fits into the bytes: or none of them.
pub record Longest (bytes : List Json → ℕ) (byte_limit count : ℕ) (rows result : List Json)
    (popped : Bool) : Type 0 where
  pub kept : ℕ
  pub within : kept ≤ count
  pub start : result ≡ take kept rows
  pub fits : (bytes result ≤ byte_limit) ⊎ (kept ≡ 0)
  pub longest : (k : ℕ) → kept < k → k ≤ count → byte_limit < bytes (take k rows)
  pub flagged : (popped ≡ true) ↔ (kept < count)

module _ (bytes : List Json → ℕ) (byte_limit : ℕ) where
  fit-big :
      (n : ℕ) (result : List Json)
      → nonempty result ≡ true
      → ltb byte_limit (bytes result) ≡ true
      → fit bytes byte_limit (suc n) result ≡ ((fit bytes byte_limit n (pop result)).0, true)
  unfolding fit
  fit-big n result a b = rw (a, b) refl

  fit-small :
      (n : ℕ) (result : List Json)
      → ltb byte_limit (bytes result) ≡ false
      → fit bytes byte_limit (suc n) result ≡ (result, false)
  unfolding fit
  fit-small n [] b = refl
  fit-small n (x ∷ xs) b = rw b refl

  nonempty-take :
      (n : ℕ) (rows : List Json) → suc n ≤ length rows → nonempty (take (suc n) rows) ≡ true
  nonempty-take n [] h = absurd (omega arith)
  nonempty-take n (x ∷ xs) h = refl

  module _ (rows : List Json) where
    abbrev Fitted : ℕ → List Json × Bool → Type 0
    Fitted n out = Longest bytes byte_limit n rows out.0 out.1

    fit-Longest : (n : ℕ) → n ≤ length rows → Fitted n (fit bytes byte_limit n (take n rows))
    fit-Longest zero h =
        unfold fit in
        record {
          kept = 0;
          within = omega arith;
          start = refl;
          fits = inr refl;
          longest = λ k lt le. absurd (omega (arith, lt, le));
          flagged = ((λ e. cc), (λ lt. absurd (omega (arith, lt))));
        }
    fit-Longest (suc n) h = elim (Bool-cases (ltb byte_limit (bytes (take (suc n) rows)))) [
      | inr f ↦ subst (Fitted (suc n)) (sym (fit-small n (take (suc n) rows) f)) (record {
        kept = suc n;
        within = omega arith;
        start = refl;
        fits = inl (ltb_false→le _ _ f);
        longest = λ k lt le. absurd (omega (arith, lt, le));
        flagged = ((λ e. cc), (λ lt. absurd (omega (arith, lt))));
      })
      | inl t ↦
          let ih = fit-Longest n (omega (arith, h)) in
          let path =
            fit-big n (take (suc n) rows) (nonempty-take n rows h) t
            ∙ ap (λ r. ((fit bytes byte_limit n r).0, true)) (pop-take n rows h) in
          subst (Fitted (suc n)) (sym path) (record {
            kept = ih.kept;
            within = omega (arith, ih.within);
            start = ih.start;
            fits = ih.fits;
            longest = λ k lt le. elim (Bool-cases (leb k n)) [
              | inl small ↦ ih.longest k lt (leb→le k n small)
              | inr f ↦
                  let same : suc n ≡ k = omega (arith, leb_false→lt k n f, le) in
                  subst (λ m. byte_limit < bytes (take m rows)) same (ltb→lt _ _ t)
            ];
            flagged = ((λ e. omega (arith, ih.within)), (λ lt. refl));
          })
    ]

items_of-array_of : (rows : List Json) → items_of (array_of rows) ≡ rows
items_of-array_of [] = refl
items_of-array_of (v ∷ rest) = ap (λ r. v ∷ r) (items_of-array_of rest)

-- The outcome of the loop, and the flag that `_bounded` makes of it.
abbrev fitted : Python → ℕ → ℕ → List Json → List Json × Bool
fitted python row_limit byte_limit rows =
    fit (list_bytes python) byte_limit (length (take row_limit rows)) (take row_limit rows)

abbrev is_truncated : Python → ℕ → ℕ → List Json → Bool
is_truncated python row_limit byte_limit rows =
    if (fitted python row_limit byte_limit rows).1
    then true
    else ltb (length (take row_limit rows)) (length rows)

abbrev pub row_count : ℕ → List Json → ℕ
row_count row_limit rows = min row_limit (length rows)

module _ (python : Python) (row_limit byte_limit : ℕ) (rows : List Json) where
  abbrev F : List Json × Bool
  F = fitted python row_limit byte_limit rows

  fitted-Longest : Longest (list_bytes python) byte_limit (row_count row_limit rows) rows F.0 F.1
  fitted-Longest =
      let n = row_count row_limit rows in
      let least : n ≤ length rows = omega arith in
      let count = length-take row_limit rows in
      let same = take-min row_limit rows in
      let path : fit (list_bytes python) byte_limit n (take n rows) ≡ F =
        ap (λ xs. fit (list_bytes python) byte_limit n xs) same
        ∙ ap (λ k. fit (list_bytes python) byte_limit k (take row_limit rows)) (sym count) in
      subst (λ (out : List Json × Bool). Longest (list_bytes python) byte_limit n rows out.0 out.1)
        path (fit-Longest (list_bytes python) byte_limit rows n least)

  length-fitted : length F.0 ≡ fitted-Longest.kept
  length-fitted =
      ap length fitted-Longest.start
      ∙ length-take fitted-Longest.kept rows
      ∙ omega (arith, fitted-Longest.within)

  is_truncated_iff :
      (is_truncated python row_limit byte_limit rows ≡ true) ↔ (length F.0 < length rows)
  is_truncated_iff = elim (Bool-cases F.1) [
    | inl t ↦
        let kept = fitted-Longest.flagged.0 t in
        ((λ h. omega (arith, length-fitted, kept)), (λ lt. rw t refl))
    | inr f ↦
        let all : fitted-Longest.kept < row_count row_limit rows → ⊥ =
          λ lt. cc (f, fitted-Longest.flagged.1 lt) in
        let count = length-take row_limit rows in
        let full : row_count row_limit rows ≤ fitted-Longest.kept =
          elim (Bool-cases (ltb fitted-Longest.kept (row_count row_limit rows))) [
            | inl t ↦ absurd (all (ltb→lt _ _ t))
            | inr g ↦ ltb_false→le _ _ g
          ] in
        (
          (λ h.
              let lt = ltb→lt _ _ (rw f at h) in
              omega (arith, lt, count, length-fitted, fitted-Longest.within)),
          (λ lt. rw f (lt→ltb _ _ (omega (arith, lt, count, full, length-fitted)))),
        )
  ]

-- A list that is bounded is the longest start of its rows, within the row limit, whose text is
-- within the byte limit, or none of them where no start is; and it is marked as truncated exactly
-- when a row is missing.
pub bounded-Longest :
    (python : Python) (row_limit byte_limit : ℕ) (rows : List Json)
    → (result : List Json) × (truncated : Bool) × (popped : Bool) × (bounded python row_limit
          byte_limit
          (array (array_of rows))
        ≡ ok (array (array_of result), truncated))
      × Longest (list_bytes python) byte_limit (row_count row_limit rows) rows result popped
      × ((truncated ≡ true) ↔ (length result < length rows))
unfolding bounded
bounded-Longest python row_limit byte_limit rows =
    let F = fitted python row_limit byte_limit rows in
    (
      F.0,
      is_truncated python row_limit byte_limit rows,
      F.1,
      rw (items_of-array_of rows) refl,
      fitted-Longest python row_limit byte_limit rows,
      is_truncated_iff python row_limit byte_limit rows,
    )
