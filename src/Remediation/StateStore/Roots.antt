-- ===== src/Remediation/StateStore/Roots.antt =====
-- The directories of generations that `validate` of state_store.py accepts.
use mathlib.Core.List.{append_assoc, append-nil}
use probabilistic_ai_inciden.Base.{
  ◌≡◌, ap, sym, ◌∙◌, subst, ℕ, zero, suc, ◌+◌, ◌≤◌, ◌<◌, ◌↔◌, Bool, true, false, leb, leb→le,
  le→leb, List, [], ◌∷◌, ◌++◌, map, inl, inr, arith, All, find, keep, Option-cases, Bool-cases, ltb,
  ltb→lt, beq→eq, eq→beq, &&_true, &&_intro, nat_eq, ok, ◌==◌, ok-injective, reject_if-eq-ok,
  reject_if-false,
}
use probabilistic_ai_inciden.Base.Membership.{
  In, In-append, In-append_left, In-append_right, In-map, In-map_inv, In-All, All-of_In, Distinct,
  Distinct-snoc, has, has_false→not_In, not_In→has_false, is_subset→Subset, Subset→is_subset,
}
use probabilistic_ai_inciden.Base.Lookup.{
  In-keep, keep-In, find-In, In-find, Distinct-middle, Distinct-injective, map-append,
}
use probabilistic_ai_inciden.Remediation.Generation.{
  name_eq, Entry, Pointer, invalid_entry, duplicate_generations,
}
use probabilistic_ai_inciden.Remediation.StateStore.{
  is_invalid, number_of, generation_roots, range, is_contiguous,
}

abbrev pub numbers : List Entry → List ℕ
numbers = map number_of

abbrev pub AllNamed : List Entry → Type 0
AllNamed = All (λ (e : Entry). is_invalid e.name ≡ false)

generation_roots-sound_from :
    (roots es : List Entry) {out : List Entry}
    → Distinct (numbers roots)
    → generation_roots roots es ≡ ok out
    → (out ≡ roots ++ es) × Distinct (numbers (roots ++ es)) × AllNamed es
unfolding generation_roots
generation_roots-sound_from roots [] d h =
    let nil = append-nil roots in
    (sym (ok-injective h) ∙ sym nil, subst (λ es. Distinct (numbers es)) (sym nil) d, tt)
generation_roots-sound_from roots (e ∷ rest) d h =
    let (named, h1) = reject_if-eq-ok (is_invalid e.name) invalid_entry _ h in
    let (new, h2) =
      reject_if-eq-ok (has (numbers roots) (number_of e)) duplicate_generations _ h1 in
    let grown =
      subst Distinct (sym (map-append number_of roots (e ∷ [])))
        (Distinct-snoc (numbers roots) (number_of e) d (has_false→not_In _ _ new)) in
    let (same, distinct, all) = generation_roots-sound_from (roots ++ e ∷ []) rest grown h2 in
    let assoc = append_assoc roots (e ∷ []) rest in
    (same ∙ assoc, subst (λ es. Distinct (numbers es)) assoc distinct, (named, all))

generation_roots-complete_from :
    (roots es : List Entry)
    → Distinct (numbers (roots ++ es))
    → AllNamed es
    → generation_roots roots es ≡ ok (roots ++ es)
unfolding generation_roots
generation_roots-complete_from roots [] d named = ap ok (sym (append-nil roots))
generation_roots-complete_from roots (e ∷ rest) d named =
    let assoc = append_assoc roots (e ∷ []) rest in
    let split = subst Distinct (map-append number_of roots (e ∷ rest)) d in
    let new = Distinct-middle (numbers roots) (number_of e) (numbers rest) split in
    let next =
      generation_roots-complete_from (roots ++ e ∷ []) rest
        (subst (λ es. Distinct (numbers es)) (sym assoc) d) named.1 in
    reject_if-false _ _ _ named.0
      (reject_if-false _ _ _ (not_In→has_false _ _ new) (next ∙ ap ok assoc))

-- The scan returns the entries exactly when their numbers are distinct and their names are valid.
pub generation_roots_iff :
    (es : List Entry) → (generation_roots [] es ≡ ok es) ↔ (Distinct (numbers es) × AllNamed es)
generation_roots_iff es = (
  λ h. let (_, distinct, named) = generation_roots-sound_from [] es tt h in (distinct, named),
  λ p. generation_roots-complete_from [] es p.0 p.1,
)

pub generation_roots-same : (es out : List Entry) → generation_roots [] es ≡ ok out → out ≡ es
generation_roots-same es out h = (generation_roots-sound_from [] es tt h).0

In-range : (n m : ℕ) → In n (range m) → n < m
unfolding range
In-range n zero h = absurd h
In-range n (suc m) h = elim (In-append n (range m) (m ∷ []) h) [
  | inl l ↦ omega (arith, In-range n m l)
  | inr (inl e) ↦ omega (arith, e)
  | inr (inr z) ↦ absurd z
]

range-In : (n m : ℕ) → n < m → In n (range m)
unfolding range
range-In n zero h = absurd (omega arith)
range-In n (suc m) h = elim (Bool-cases (ltb n m)) [
  | inl t ↦ In-append_left n (range m) (m ∷ []) (range-In n m (ltb→lt n m t))
  | inr f ↦ In-append_right n (range m) (m ∷ []) (inl (ground arith))
]

-- The generations up to the pointer's are all there, and the pointer's has its name.
pub record Contiguous (p : Pointer) (es : List Entry) : Type 0 where
  pub entry : Entry
  pub there : In entry es
  pub current : number_of entry ≡ p.generation
  pub named : entry.name ≡ p.directory
  pub full : (n : ℕ) → n ≤ p.generation → In n (numbers es)

abbrev committed : Pointer → List Entry → List Entry
committed p = keep (λ e. leb (number_of e) p.generation)

abbrev at_pointer : Pointer → Entry → Bool
at_pointer p e = number_of e == p.generation

pub is_contiguous-Contiguous :
    (p : Pointer) (es : List Entry) → is_contiguous p es ≡ true → Contiguous p es
unfolding is_contiguous
is_contiguous-Contiguous p es h = elim (Option-cases (find (at_pointer p) (committed p es))) [
  | inl missing ↦ absurd (cc (rw (missing, is_contiguous) at h))
  | inr (e, found) ↦
      let (h1, full) = &&_true _ _ (rw (found, is_contiguous) at h) in
      let (named, _) = &&_true _ _ h1 in
      let (m, at) = find-In (at_pointer p) (committed p es) e found in
      record {
        entry = e;
        there = (In-keep _ es e m).0;
        current = beq→eq _ _ at;
        named = beq→eq _ _ named;
        full = λ n le.
            let in_kept =
              In-All _ n _ (is_subset→Subset _ _ full)
                (range-In n (p.generation + 1) (omega arith)) in
            let (x, kept, e) = In-map_inv number_of n (committed p es) in_kept in
            subst (λ k. In k (numbers es)) e (In-map number_of x es (In-keep _ es x kept).0);
      }
]

committed-range :
    (p : Pointer) (es : List Entry) (n : ℕ)
    → In n (numbers (committed p es))
    → In n (range (p.generation + 1))
committed-range p es n m =
    let (x, kept, e) = In-map_inv number_of n (committed p es) m in
    let le = leb→le (number_of x) p.generation (In-keep _ es x kept).1 in
    range-In n (p.generation + 1) (omega (arith, e, le))

range-committed :
    (p : Pointer) (es : List Entry)
    → Contiguous p es
    → (n : ℕ) → In n (range (p.generation + 1))
    → In n (numbers (committed p es))
range-committed p es c n m =
    let lt = In-range n (p.generation + 1) m in
    let (x, there, e) = In-map_inv number_of n es (c.full n (omega (arith, lt))) in
    let le = le→leb (number_of x) p.generation (omega (arith, lt, e)) in
    subst (λ k. In k (numbers (committed p es))) e
      (In-map number_of x (committed p es) (keep-In _ es x there le))

pub Contiguous-is_contiguous :
    (p : Pointer) (es : List Entry)
    → Distinct (numbers es)
    → Contiguous p es
    → is_contiguous p es ≡ true
unfolding is_contiguous
Contiguous-is_contiguous p es d c =
    let kept : In c.entry (committed p es) =
      keep-In _ es c.entry c.there (le→leb _ _ (omega (arith, c.current))) in
    let (e, found) = In-find (at_pointer p) (committed p es) c.entry kept (eq→beq _ _ c.current) in
    let (m, at) = find-In (at_pointer p) (committed p es) e found in
    let same : e ≡ c.entry =
      Distinct-injective number_of es e c.entry d (In-keep _ es e m).0 c.there
        (beq→eq _ _ at ∙ sym c.current) in
    rw (found, is_contiguous)
      (&&_intro
        (&&_intro (eq→beq _ _ (ap (λ (x : Entry). x.name) same ∙ c.named))
          (Subset→is_subset _ _ (All-of_In _ (committed-range p es))))
        (Subset→is_subset _ _ (All-of_In _ (range-committed p es c))))
