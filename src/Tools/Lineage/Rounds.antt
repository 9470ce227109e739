-- ===== src/Tools/Lineage/Rounds.antt =====
-- One round of the lineage trace of gateway.py.
use probabilistic_ai_inciden.Base.{
  ◌≡◌, ◌↔◌, ◌⊎◌, refl, sym, subst, String, Bool, true, false, ◌&&◌, List, [], ◌∷◌, inl, inr, arith,
  Bool-cases, &&_true, &&_intro, string_eq, if◌then◌else◌,
}
use probabilistic_ai_inciden.Base.Membership.{
  In, In-append, In-append_left, In-append_right, has, has→In, In→has,
}
use probabilistic_ai_inciden.Tools.Lineage.{
  Edge, Direction, both, upstream, downstream, goes_down, goes_up, Round, ends, include, visit,
  scan,
}

-- The edge leads from the first node to the second, in the direction.
pub data Leads (direction : Direction) (row : Edge) (u v : String) : Type 0 where
  down :
      (direction ≡ both) ⊎ (direction ≡ downstream)
      → row.upstream_node_id ≡ u
      → row.downstream_node_id ≡ v
      → Leads direction row u v
  up :
      (direction ≡ both) ⊎ (direction ≡ upstream)
      → row.downstream_node_id ≡ u
      → row.upstream_node_id ≡ v
      → Leads direction row u v

goes_down_iff : (d : Direction) → (goes_down d ≡ true) ↔ ((d ≡ both) ⊎ (d ≡ downstream))
goes_down_iff both = (λ h. inl refl, λ h. refl)
goes_down_iff downstream = (λ h. inr refl, λ h. refl)
goes_down_iff upstream = (λ h. cc, λ h. elim h [ inl e ↦ cc | inr e ↦ cc ])

goes_up_iff : (d : Direction) → (goes_up d ≡ true) ↔ ((d ≡ both) ⊎ (d ≡ upstream))
goes_up_iff both = (λ h. inl refl, λ h. refl)
goes_up_iff upstream = (λ h. inr refl, λ h. refl)
goes_up_iff downstream = (λ h. cc, λ h. elim h [ inl e ↦ cc | inr e ↦ cc ])

module _ (direction : Direction) (frontier : List String) where
  -- The edge leads from a node of the frontier to the node.
  abbrev pub From : Edge → String → Type 0
  From row v = (u : String) × In u frontier × Leads direction row u v

  -- One of the edges does.
  abbrev pub Found : List Edge → String → Type 0
  Found es v = (row : Edge) × In row es × From row v

  -- The edge has the id and leads from a node of the frontier.
  abbrev pub Crosses : Edge → String → Type 0
  Crosses row id = (row.edge_id ≡ id) × ((v : String) × From row v)

  abbrev pub Crossed : List Edge → String → Type 0
  Crossed es id = (row : Edge) × In row es × Crosses row id

  In-if_single : (b : Bool) (w v : String) → In v (if b then w ∷ [] else []) → (b ≡ true) × (w ≡ v)
  In-if_single true w v (inl e) = (refl, e)
  In-if_single true w v (inr z) = absurd z
  In-if_single false w v m = absurd m

  if_single-In : (b : Bool) (w v : String) → b ≡ true → w ≡ v → In v (if b then w ∷ [] else [])
  if_single-In true w v h e = inl e
  if_single-In false w v h e = cc

  In-ends : (row : Edge) (v : String) → In v (ends direction frontier row) → From row v
  unfolding ends
  In-ends row v m = elim (In-append v _ _ m) [
    | inl l ↦
        let (b, e) = In-if_single _ row.downstream_node_id v l in
        let (d, at) = &&_true (goes_down direction) _ b in
        (row.upstream_node_id, has→In frontier _ at, down ((goes_down_iff direction).0 d) refl e)
    | inr r ↦
        let (b, e) = In-if_single _ row.upstream_node_id v r in
        let (d, at) = &&_true (goes_up direction) _ b in
        (row.downstream_node_id, has→In frontier _ at, up ((goes_up_iff direction).0 d) refl e)
  ]

  ends-In : (row : Edge) (v : String) → From row v → In v (ends direction frontier row)
  unfolding ends
  ends-In row v (u, m, down d p q) =
      let at = In→has frontier row.upstream_node_id (subst (λ x. In x frontier) (sym p) m) in
      In-append_left v _ _
        (if_single-In _ row.downstream_node_id v (&&_intro ((goes_down_iff direction).1 d) at) q)
  ends-In row v (u, m, up d p q) =
      let at = In→has frontier row.downstream_node_id (subst (λ x. In x frontier) (sym p) m) in
      In-append_right v _ _
        (if_single-In _ row.upstream_node_id v (&&_intro ((goes_up_iff direction).1 d) at) q)

  include-From : (row : Edge) → include direction frontier row ≡ true → (v : String) × From row v
  unfolding include
  include-From row h =
      elim (Bool-cases (goes_down direction && has frontier row.upstream_node_id)) [
        | inl b ↦
            let (d, at) = &&_true (goes_down direction) _ b in
            (
              row.downstream_node_id,
              (
                row.upstream_node_id,
                has→In frontier _ at,
                down ((goes_down_iff direction).0 d) refl refl,
              ),
            )
        | inr f ↦
            let (d, at) = &&_true (goes_up direction) _ (rw f at h) in
            (
              row.upstream_node_id,
              (
                row.downstream_node_id,
                has→In frontier _ at,
                up ((goes_up_iff direction).0 d) refl refl,
              ),
            )
      ]

  From-include : (row : Edge) (v : String) → From row v → include direction frontier row ≡ true
  unfolding include
  From-include row v (u, m, down d p q) =
      let at = In→has frontier row.upstream_node_id (subst (λ x. In x frontier) (sym p) m) in
      rw (&&_intro ((goes_down_iff direction).1 d) at) refl
  From-include row v (u, m, up d p q) =
      let at = In→has frontier row.downstream_node_id (subst (λ x. In x frontier) (sym p) m) in
      rw (&&_intro ((goes_up_iff direction).1 d) at) (ground arith)

  visit-next :
      (row : Edge) (r : Round) (v : String)
      → In v (visit direction frontier row r).next_frontier ↔ (From row v ⊎ In v r.next_frontier)
  unfolding visit
  visit-next row r v = (
    λ m. elim (In-append v (ends direction frontier row) r.next_frontier m) [
      | inl here ↦ inl (In-ends row v here)
      | inr old ↦ inr old
    ],
    λ m. elim m [
      | inl from ↦ In-append_left v (ends direction frontier row) _ (ends-In row v from)
      | inr old ↦ In-append_right v (ends direction frontier row) _ old
    ],
  )

  visit-edges :
      (row : Edge) (r : Round) (id : String)
      → In id (visit direction frontier row r).selected_edges
        ↔ (Crosses row id ⊎ In id r.selected_edges)
  unfolding visit
  visit-edges row r id = elim (Bool-cases (include direction frontier row)) [
    | inl t ↦ rw t (
      (λ m. elim m [ inl e ↦ inl (e, include-From row t) | inr old ↦ inr old ]),
      (λ m. elim m [ inl (e, _) ↦ inl e | inr old ↦ inr old ]),
    )
    | inr f ↦ rw f (
      (λ old. inr old),
      (λ m. elim m [
        | inl (e, (v, from)) ↦ absurd (cc (f, From-include row v from))
        | inr old ↦ old
      ]),
    )
  ]

  -- The next frontier is what was there with the nodes that an edge leads to.
  pub scan-next :
      (es : List Edge) (r : Round) (v : String)
      → In v (scan direction frontier es r).next_frontier ↔ (In v r.next_frontier ⊎ Found es v)
  unfolding scan
  scan-next [] r v = (inl, λ m. elim m [ inl a ↦ a | inr (row, z, _) ↦ absurd z ])
  scan-next (row ∷ es) r v =
      let ih = scan-next es (visit direction frontier row r) v in
      let here = visit-next row r v in
      (
        λ m. elim (ih.0 m) [
          | inr (x, there, from) ↦ inr (x, inr there, from)
          | inl a ↦ elim (here.0 a) [ inl from ↦ inr (row, inl refl, from) | inr old ↦ inl old ]
        ],
        λ m. ih.1 (elim m [
          | inl old ↦ inl (here.1 (inr old))
          | inr (x, inl e, from) ↦ inl (here.1 (inl (subst (λ (y : Edge). From y v) (sym e) from)))
          | inr (x, inr there, from) ↦ inr (x, there, from)
        ]),
      )

  -- The selected edges are those that were, with the edges that lead from the frontier.
  pub scan-edges :
      (es : List Edge) (r : Round) (id : String)
      → In id (scan direction frontier es r).selected_edges
        ↔ (In id r.selected_edges ⊎ Crossed es id)
  unfolding scan
  scan-edges [] r id = (inl, λ m. elim m [ inl a ↦ a | inr (row, z, _) ↦ absurd z ])
  scan-edges (row ∷ es) r id =
      let ih = scan-edges es (visit direction frontier row r) id in
      let here = visit-edges row r id in
      (
        λ m. elim (ih.0 m) [
          | inr (x, there, rest) ↦ inr (x, inr there, rest)
          | inl a ↦ elim (here.0 a) [ inl from ↦ inr (row, inl refl, from) | inr old ↦ inl old ]
        ],
        λ m. ih.1 (elim m [
          | inl old ↦ inl (here.1 (inr old))
          | inr (x, inl e, from) ↦
              inl (here.1 (inl (subst (λ (y : Edge). Crosses y id) (sym e) from)))
          | inr (x, inr there, from) ↦ inr (x, there, from)
        ]),
      )
