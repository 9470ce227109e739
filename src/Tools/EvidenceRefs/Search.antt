-- ===== src/Tools/EvidenceRefs/Search.antt =====
-- The queue of gateway.py's `_evidence_refs` finds what a walk through the value finds.
use probabilistic_ai_inciden.Base.{
  ◌≡◌, ◌↔◌, ◌⊎◌, refl, ap, sym, subst, ℕ, zero, suc, ◌+◌, ◌≤◌, String, some, List, [], ◌∷◌, ◌++◌,
  inl, inr, arith, string_eq,
}
use probabilistic_ai_inciden.Base.Membership.{
  In, In-++, In-to_set, to_set-In, to_set-Distinct, In-append, In-append_left, In-append_right,
  Distinct, to_set,
}
use probabilistic_ai_inciden.Base.Sort.{
  sorted, text_le, IsSorted, sort_by-IsSorted, sort_by-In, In-sort_by, Distinct-sort_by,
}
use probabilistic_ai_inciden.Base.TextOrder.{text_le_total}
use probabilistic_ai_inciden.Tools.Json.{
  Json, Python, null, bool, number, Items, Fields, no_items, no_fields, text, array, object, item,
  field, items_of, values_of, children, size, items_size, fields_size, total,
}
use probabilistic_ai_inciden.Tools.EvidenceRefs.{own_refs, collect, evidence_refs}

module _ (python : Python) where
  -- The references in a value, from the outside in.
  abbrev mutual
    pub mentions : Json → List String
    mentions (array items) = own_refs python (array items) ++ items_mention items
    mentions (object fields) = own_refs python (object fields) ++ fields_mention fields
    mentions v = own_refs python v

    pub items_mention : Items → List String
    items_mention no_items = []
    items_mention (item v rest) = mentions v ++ items_mention rest

    pub fields_mention : Fields → List String
    fields_mention no_fields = []
    fields_mention (field k v rest) = mentions v ++ fields_mention rest

  abbrev pub all_mention : List Json → List String
  all_mention [] = []
  all_mention (v ∷ rest) = mentions v ++ all_mention rest

  items_all : (xs : Items) → all_mention (items_of xs) ≡ items_mention xs
  items_all no_items = refl
  items_all (item v rest) = ap (λ r. mentions v ++ r) (items_all rest)

  fields_all : (xs : Fields) → all_mention (values_of xs) ≡ fields_mention xs
  fields_all no_fields = refl
  fields_all (field k v rest) = ap (λ r. mentions v ++ r) (fields_all rest)

  items_total : (xs : Items) → total (items_of xs) ≡ items_size xs
  items_total no_items = refl
  items_total (item v rest) = ap (λ r. size v + r) (items_total rest)

  fields_total : (xs : Fields) → total (values_of xs) ≡ fields_size xs
  fields_total no_fields = refl
  fields_total (field k v rest) = ap (λ r. size v + r) (fields_total rest)

  pub size-children : (v : Json) → size v ≡ suc (total (children v))
  size-children (array items) = ap suc (sym (items_total items))
  size-children (object fields) = ap suc (sym (fields_total fields))
  size-children null = refl
  size-children (bool b) = refl
  size-children (number n) = refl
  size-children (text t) = refl

  pub In-mentions :
      (v : Json) (x : String)
      → In x (mentions v) ↔ (In x (own_refs python v) ⊎ In x (all_mention (children v)))
  unfolding own_refs
  In-mentions (array items) x =
      subst (λ r. In x (mentions (array items)) ↔ (In x (own_refs python (array items)) ⊎ In x r))
        (sym (items_all items)) (In-++ x (own_refs python (array items)) (items_mention items))
  In-mentions (object fields) x =
      subst
        (λ r. In x (mentions (object fields)) ↔ (In x (own_refs python (object fields)) ⊎ In x r))
        (sym (fields_all fields))
        (In-++ x (own_refs python (object fields)) (fields_mention fields))
  In-mentions null x = (inl, λ m. elim m [ inl a ↦ a | inr z ↦ z ])
  In-mentions (bool b) x = (inl, λ m. elim m [ inl a ↦ a | inr z ↦ z ])
  In-mentions (number n) x = (inl, λ m. elim m [ inl a ↦ a | inr z ↦ z ])
  In-mentions (text t) x = (inl, λ m. elim m [ inl a ↦ a | inr z ↦ z ])

  In-all_append :
      (vs ws : List Json) (x : String)
      → In x (all_mention (vs ++ ws)) ↔ (In x (all_mention vs) ⊎ In x (all_mention ws))
  In-all_append [] ws x = (inr, λ m. elim m [ inl z ↦ absurd z | inr a ↦ a ])
  In-all_append (v ∷ vs) ws x =
      let ih = In-all_append vs ws x in
      (
        λ m. elim (In-append x (mentions v) _ m) [
          | inl here ↦ inl (In-append_left x (mentions v) _ here)
          | inr rest ↦ elim (ih.0 rest) [
            | inl old ↦ inl (In-append_right x (mentions v) _ old)
            | inr new ↦ inr new
          ]
        ],
        λ m. elim m [
          | inr new ↦ In-append_right x (mentions v) _ (ih.1 (inr new))
          | inl a ↦ elim (In-append x (mentions v) _ a) [
            | inl here ↦ In-append_left x (mentions v) _ here
            | inr old ↦ In-append_right x (mentions v) _ (ih.1 (inl old))
          ]
        ],
      )

  total-append : (vs ws : List Json) → total (vs ++ ws) ≡ total vs + total ws
  total-append [] ws = omega arith
  total-append (v ∷ vs) ws = omega (arith, total-append vs ws)

  -- With fuel for every value of the queue the loop ends with the references of all of them.
  collect-total :
      (fuel : ℕ) (queue : List Json) (refs : List String)
      → total queue ≤ fuel
      → (out : List String) × (collect python fuel queue refs ≡ some out)
        × ((x : String) → In x out ↔ (In x refs ⊎ In x (all_mention queue)))
  unfolding collect
  collect-total fuel [] refs h =
      (refs, refl, λ x. (inl, λ m. elim m [ inl a ↦ a | inr z ↦ absurd z ]))
  collect-total zero (v ∷ queue) refs h = absurd (omega (arith, size-children v))
  collect-total (suc fuel) (v ∷ queue) refs h =
      let enough : total (queue ++ children v) ≤ fuel =
        omega (arith, h, size-children v, total-append queue (children v)) in
      let (out, e, ih) =
        collect-total fuel (queue ++ children v) (own_refs python v ++ refs) enough in
      (
        out,
        e,
        λ x.
            let own = In-mentions v x in
            let split = In-all_append queue (children v) x in
            (
              λ m. elim ((ih x).0 m) [
                | inl a ↦ elim (In-append x (own_refs python v) refs a) [
                  | inl o ↦ inr (In-append_left x (mentions v) _ (own.1 (inl o)))
                  | inr old ↦ inl old
                ]
                | inr b ↦ elim (split.0 b) [
                  | inl q ↦ inr (In-append_right x (mentions v) _ q)
                  | inr c ↦ inr (In-append_left x (mentions v) _ (own.1 (inr c)))
                ]
              ],
              λ m. (ih x).1 (elim m [
                | inl old ↦ inl (In-append_right x (own_refs python v) refs old)
                | inr b ↦ elim (In-append x (mentions v) (all_mention queue) b) [
                  | inr q ↦ inr (split.1 (inl q))
                  | inl here ↦ elim (own.0 here) [
                    | inl o ↦ inl (In-append_left x (own_refs python v) refs o)
                    | inr c ↦ inr (split.1 (inr c))
                  ]
                ]
              ]),
            ),
      )

  pub evidence_refs-mentions :
      (value : Json)
      → (refs : List String) × (evidence_refs python value ≡ some refs)
        × Distinct refs
        × IsSorted text_le refs
        × ((x : String) → In x refs ↔ In x (mentions value))
  unfolding evidence_refs sorted
  evidence_refs-mentions value =
      let (out, e, all) = collect-total (size value) (value ∷ []) [] (omega arith) in
      (
        sorted (to_set out),
        rw (e, evidence_refs) refl,
        Distinct-sort_by text_le (to_set out) (to_set-Distinct out),
        sort_by-IsSorted text_le text_le_total (to_set out),
        λ x. (
          λ m. elim ((all x).0 (to_set-In out x (In-sort_by text_le x (to_set out) m))) [
            | inl z ↦ absurd z
            | inr a ↦ elim (In-append x (mentions value) [] a) [ inl b ↦ b | inr z ↦ absurd z ]
          ],
          λ m.
              sort_by-In text_le x (to_set out)
                (In-to_set out x ((all x).1 (inr (In-append_left x (mentions value) [] m)))),
        ),
      )
