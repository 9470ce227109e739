-- ===== src/Tools/EvidenceRefs/Cited.antt =====
-- What `_evidence_refs` of gateway.py looks for, without its queue: an object anywhere in the value
-- names evidence by one of three keys.
use probabilistic_ai_inciden.Base.{
  ◌≡◌, ◌↔◌, refl, ap, sym, subst, ℕ, zero, suc, ◌≤◌, String, Option, none, some, List, [], ◌∷◌,
  ◌++◌, map, inl, inr, arith,
}
use probabilistic_ai_inciden.Base.Membership.{
  In, In-append, In-append_left, In-append_right, Distinct,
}
use probabilistic_ai_inciden.Base.Sort.{IsSorted, text_le}
use probabilistic_ai_inciden.Tools.Json.{
  Json, Python, null, bool, number, Items, Fields, text, array, object, items_of, get, children,
  size, total,
}
use probabilistic_ai_inciden.Tools.EvidenceRefs.{own_refs, direct, many, raw, evidence_refs}
use probabilistic_ai_inciden.Tools.EvidenceRefs.Search.{
  mentions, all_mention, In-mentions, size-children, evidence_refs-mentions,
}

-- The first value stands somewhere in the second.
pub data Within (u : Json) : Json → Type 0 where
  here : Within u u
  inside : {v w : Json} → In w (children v) → Within u w → Within u v

module _ (python : Python) where
  -- The value is an object that names the evidence.
  pub data Cites (u : Json) (x : String) : Type 0 where
    single : (fs : Fields) → u ≡ object fs → get fs "evidence_record_id" ≡ some (text x) → Cites u x
    several :
        (fs : Fields) (vs : Items)
        → u ≡ object fs
        → get fs "evidence_record_ids" ≡ some (array vs)
        → In x (map python.str (items_of vs))
        → Cites u x
    encoded :
        (fs : Fields) (t : String) (vs : Items)
        → u ≡ object fs
        → get fs "evidence_record_ids_json" ≡ some (text t)
        → python.loads t ≡ some (array vs)
        → In x (map python.str (items_of vs))
        → Cites u x

  -- A part of the value names the evidence.
  abbrev pub Cited : Json → String → Type 0
  Cited v x = (u : Json) × Within u v × Cites u x

  direct-text : (o : Option Json) (x : String) → In x (direct python o) → o ≡ some (text x)
  direct-text (some (text t)) x (inl e) = ap (λ s. some (text s)) e
  direct-text (some (text t)) x (inr z) = absurd z
  direct-text none x m = absurd m
  direct-text (some null) x m = absurd m
  direct-text (some (bool b)) x m = absurd m
  direct-text (some (number n)) x m = absurd m
  direct-text (some (array vs)) x m = absurd m
  direct-text (some (object fs)) x m = absurd m

  abbrev Lists : Option Json → String → Type 0
  Lists o x = (vs : Items) × (o ≡ some (array vs)) × In x (map python.str (items_of vs))

  many-Lists : (o : Option Json) (x : String) → In x (many python o) → Lists o x
  many-Lists (some (array vs)) x m = (vs, refl, m)
  many-Lists none x m = absurd m
  many-Lists (some null) x m = absurd m
  many-Lists (some (bool b)) x m = absurd m
  many-Lists (some (number n)) x m = absurd m
  many-Lists (some (text t)) x m = absurd m
  many-Lists (some (object fs)) x m = absurd m

  raw-Lists :
      (o : Option Json) (x : String)
      → In x (raw python o)
      → (t : String) × (o ≡ some (text t)) × Lists (python.loads t) x
  raw-Lists (some (text t)) x m = (t, refl, many-Lists (python.loads t) x m)
  raw-Lists none x m = absurd m
  raw-Lists (some null) x m = absurd m
  raw-Lists (some (bool b)) x m = absurd m
  raw-Lists (some (number n)) x m = absurd m
  raw-Lists (some (array vs)) x m = absurd m
  raw-Lists (some (object fs)) x m = absurd m

  own_refs-Cites : (u : Json) (x : String) → In x (own_refs python u) → Cites u x
  unfolding own_refs
  own_refs-Cites (object fs) x m = elim (In-append x _ _ m) [
    | inr c ↦
        let (t, e, (vs, read, there)) = raw-Lists (get fs "evidence_record_ids_json") x c in
        encoded fs t vs refl e read there
    | inl ab ↦ elim (In-append x (direct python (get fs "evidence_record_id")) _ ab) [
      | inl a ↦ single fs refl (direct-text (get fs "evidence_record_id") x a)
      | inr b ↦
          let (vs, e, there) = many-Lists (get fs "evidence_record_ids") x b in
          several fs vs refl e there
    ]
  ]
  own_refs-Cites null x m = absurd m
  own_refs-Cites (bool b) x m = absurd m
  own_refs-Cites (number n) x m = absurd m
  own_refs-Cites (text t) x m = absurd m
  own_refs-Cites (array vs) x m = absurd m

  Cites-own_refs : (u : Json) (x : String) → Cites u x → In x (own_refs python u)
  unfolding own_refs
  Cites-own_refs u x (single fs e found) =
      let own : In x (direct python (get fs "evidence_record_id")) = rw found (inl refl) in
      subst (λ y. In x (own_refs python y)) (sym e)
        (In-append_left x _ _ (In-append_left x _ _ own))
  Cites-own_refs u x (several fs vs e found there) =
      let own : In x (many python (get fs "evidence_record_ids")) = rw found there in
      subst (λ y. In x (own_refs python y)) (sym e)
        (In-append_left x _ _
          (In-append_right x (direct python (get fs "evidence_record_id")) _ own))
  Cites-own_refs u x (encoded fs t vs e found read there) =
      let own : In x (raw python (get fs "evidence_record_ids_json")) = rw found (rw read there) in
      subst (λ y. In x (own_refs python y)) (sym e)
        (In-append_right x
          (direct python (get fs "evidence_record_id")
            ++ many python (get fs "evidence_record_ids"))
          _ own)

  In-all_mention :
      (vs : List Json) (x : String)
      → In x (all_mention python vs)
      → (v : Json) × In v vs × In x (mentions python v)
  In-all_mention [] x m = absurd m
  In-all_mention (v ∷ vs) x m = elim (In-append x (mentions python v) _ m) [
    | inl h ↦ (v, inl refl, h)
    | inr r ↦ let (w, at, h) = In-all_mention vs x r in (w, inr at, h)
  ]

  all_mention-In :
      (vs : List Json) (x : String) (v : Json)
      → In v vs
      → In x (mentions python v)
      → In x (all_mention python vs)
  all_mention-In [] x v m h = absurd m
  all_mention-In (w ∷ vs) x v (inl e) h =
      In-append_left x (mentions python w) _ (subst (λ u. In x (mentions python u)) (sym e) h)
  all_mention-In (w ∷ vs) x v (inr m) h =
      In-append_right x (mentions python w) _ (all_mention-In vs x v m h)

  size-le : (vs : List Json) (v : Json) → In v vs → size v ≤ total vs
  size-le [] v m = absurd m
  size-le (w ∷ vs) v (inl e) = subst (λ u. size u ≤ total (w ∷ vs)) e (omega arith)
  size-le (w ∷ vs) v (inr m) = omega (arith, size-le vs v m)

  mentions-Cited :
      (fuel : ℕ) (v : Json) (x : String) → size v ≤ fuel → In x (mentions python v) → Cited v x
  mentions-Cited zero v x few m = absurd (omega (arith, few, size-children python v))
  mentions-Cited (suc fuel) v x few m = elim ((In-mentions python v x).0 m) [
    | inl own ↦ (v, here, own_refs-Cites v x own)
    | inr below ↦
        let (w, at, h) = In-all_mention (children v) x below in
        let (u, there, cites) =
          mentions-Cited fuel w x
            (omega (arith, few, size-children python v, size-le (children v) w at)) h in
        (u, inside at there, cites)
  ]

  Cited-mentions : (u v : Json) (x : String) → Within u v → Cites u x → In x (mentions python v)
  Cited-mentions u v x here cites = (In-mentions python v x).1 (inl (Cites-own_refs v x cites))
  Cited-mentions u v x (inside {w = w} at there) cites =
      (In-mentions python v x).1
        (inr (all_mention-In (children v) x w at (Cited-mentions u w x there cites)))

  -- The queue ends for every value, and leaves each evidence id that an object anywhere in the
  -- value names, by one of the three keys, exactly once, and no other, in order of the text.
  pub evidence_refs-Cited :
      (value : Json)
      → (refs : List String) × (evidence_refs python value ≡ some refs)
        × Distinct refs
        × IsSorted text_le refs
        × ((x : String) → In x refs ↔ Cited value x)
  evidence_refs-Cited value =
      let (refs, e, distinct, ordered, all) = evidence_refs-mentions python value in
      (
        refs,
        e,
        distinct,
        ordered,
        λ x. (
          λ m. mentions-Cited (size value) value x (omega arith) ((all x).0 m),
          λ (u, there, cites). (all x).1 (Cited-mentions u value x there cites),
        ),
      )
