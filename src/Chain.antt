-- ===== src/Chain.antt =====
-- Hash chains: what the append-only ledgers and transcripts have in common. Each entry holds its
-- place, the hash of the entry before it, and the digest of all that.
use probabilistic_ai_inciden.Base.{
  ℕ, suc, ◌+◌, ◌≤◌, ◌<◌, ◌≡◌, ◌≢◌, refl, ap, sym, ◌∙◌, subst, String, List, [], ◌∷◌, ◌++◌, inl, inr,
  arith, length,
}
use probabilistic_ai_inciden.Base.Membership.{In}

module _ {Entry Body : Type 0} (body : Entry → Body) (hash : Entry → String) (sequence : Body → ℕ)
    (previous : Body → String) (digest : Body → String) where
  -- The entries are linked, from the place and the hash that are given.
  abbrev pub Chained : ℕ → String → List Entry → Type 0
  Chained n p [] = Unit
  Chained n p (r ∷ rest) =
      (sequence (body r) ≡ n)
      × (previous (body r) ≡ p)
      × (hash r ≡ digest (body r))
      × Chained (suc n) (hash r) rest

  -- The hash of the last entry.
  abbrev pub head_hash : String → List Entry → String
  head_hash p [] = p
  head_hash p (r ∷ rest) = head_hash (hash r) rest

  pub head_hash-snoc :
      (p : String) (xs : List Entry) (r : Entry) → head_hash p (xs ++ r ∷ []) ≡ hash r
  head_hash-snoc p [] r = refl
  head_hash-snoc p (x ∷ xs) r = head_hash-snoc (hash x) xs r

  -- An entry made at the end of a chain prolongs it.
  pub Chained-snoc :
      (n : ℕ) (p : String) (xs : List Entry) (r : Entry)
      → Chained n p xs
      → sequence (body r) ≡ n + length xs
      → previous (body r) ≡ head_hash p xs
      → hash r ≡ digest (body r)
      → Chained n p (xs ++ r ∷ [])
  Chained-snoc n p [] r c s q h = (omega arith, q, h, tt)
  Chained-snoc n p (x ∷ xs) r c s q h =
      (c.0, c.1, c.2, Chained-snoc (suc n) (hash x) xs r c.3 (omega arith) q h)

  pub Chained-sequence :
      (n : ℕ) (p : String) (xs : List Entry) (r : Entry)
      → Chained n p xs
      → In r xs
      → (n ≤ sequence (body r)) × (sequence (body r) < n + length xs) × (hash r ≡ digest (body r))
  Chained-sequence n p [] r c m = absurd m
  Chained-sequence n p (x ∷ xs) r c (inl e) =
      subst
        (λ y.
          (n ≤ sequence (body y))
          × (sequence (body y) < n + length (x ∷ xs))
          × (hash y ≡ digest (body y)))
        e (omega (arith, c.0), omega (arith, c.0), c.2)
  Chained-sequence n p (x ∷ xs) r c (inr m) =
      let ih = Chained-sequence (suc n) (hash x) xs r c.3 m in (omega arith, omega arith, ih.2)

  -- Entries of the two lists with equal digests have equal bodies.
  abbrev pub CollisionFree : List Entry → List Entry → Type 0
  CollisionFree xs ys =
      (r s : Entry) → In r xs → In s ys → digest (body r) ≡ digest (body s) → body r ≡ body s

  -- Where digests do not collide, two chains of one length that end in one hash are equal, and so
  -- are the hashes they start from.
  pub Chained-unique :
      (xs ys : List Entry)
      → CollisionFree xs ys
      → ((r s : Entry) → body r ≡ body s → hash r ≡ hash s → r ≡ s)
      → (n : ℕ) (p q : String) → Chained n p xs
      → Chained n q ys
      → length xs ≡ length ys
      → head_hash p xs ≡ head_hash q ys
      → (p ≡ q) × (xs ≡ ys)
  Chained-unique [] [] free same n p q c d l h = (h, refl)
  Chained-unique [] (y ∷ ys) free same n p q c d l h = absurd (omega arith)
  Chained-unique (x ∷ xs) [] free same n p q c d l h = absurd (omega arith)
  Chained-unique (x ∷ xs) (y ∷ ys) free same n p q c d l h =
      let (hashes, rest) =
        Chained-unique xs ys (λ r s m k. free r s (inr m) (inr k)) same (suc n) (hash x) (hash y)
          c.3 d.3 (omega arith) h in
      let bodies = free x y (inl refl) (inl refl) (sym c.2 ∙ hashes ∙ d.2) in
      let heads = same x y bodies hashes in
      (sym c.1 ∙ ap previous bodies ∙ d.1, λ i. heads i ∷ rest i)

  -- The digest of an entry made for the end of a chain is no hash of the chain.
  pub Chained-fresh :
      (new : Entry) (n : ℕ) (p : String) (xs : List Entry)
      → CollisionFree (new ∷ []) xs
      → Chained n p xs
      → sequence (body new) ≡ n + length xs
      → (r : Entry) → In r xs
      → digest (body new) ≢ hash r
  Chained-fresh new n p xs free c s r m e =
      let at = Chained-sequence n p xs r c m in
      let same = free new r (inl refl) m (e ∙ at.2) in absurd (omega (arith, ap sequence same))
