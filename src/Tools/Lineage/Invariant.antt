-- ===== src/Tools/Lineage/Invariant.antt =====
-- Bounded walks over the edges, and the rounds of gateway.py's lineage trace.
use probabilistic_ai_inciden.Base.{
  ◌≡◌, ◌↔◌, ◌⊎◌, refl, ap, sym, subst, ℕ, zero, suc, ◌+◌, String, not, List, [], ◌∷◌, ◌++◌, inl,
  inr, arith, not-true, Bool-cases, string_eq,
}
use probabilistic_ai_inciden.Base.Membership.{
  In, In-append, In-append_left, In-append_right, has, has→In, has_false→not_In,
}
use probabilistic_ai_inciden.Base.Lookup.{In-keep, keep-In}
use probabilistic_ai_inciden.Tools.Lineage.{
  Edge, Direction, Round, scan, Search, fresh, rounds, start,
}
use probabilistic_ai_inciden.Tools.Lineage.Rounds.{Leads, scan-next, scan-edges}

List-cases : {A : Type 0} (xs : List A) → (xs ≡ []) ⊎ ((x : A) × (rest : List A) × (xs ≡ x ∷ rest))
List-cases [] = inl refl
List-cases (x ∷ xs) = inr (x, xs, refl)

-- A walk over the edges leads from the source to the node in at most so many steps.
pub data Near (direction : Direction) (edges : List Edge) (source : String)
    : ℕ → String → Type 0 where
  here : {n : ℕ} → Near direction edges source n source
  step :
      {n : ℕ} {u v : String} (row : Edge)
      → Near direction edges source n u
      → In row edges
      → Leads direction row u v
      → Near direction edges source (suc n) v

suc_injective : {m n : ℕ} → suc m ≡ suc n → m ≡ n
suc_injective e = omega (arith, e)

module _ (direction : Direction) (edges : List Edge) (source : String) where
  abbrev pub N : ℕ → String → Type 0
  N = Near direction edges source

  Near-suc : {n : ℕ} {v : String} → N n v → N (suc n) v
  Near-suc here = here
  Near-suc (step row w m l) = step row (Near-suc w) m l

  -- An edge with the id leads from the node.
  abbrev pub Leaves : String → String → Type 0
  Leaves u id =
      (row : Edge) × In row edges × (row.edge_id ≡ id) × ((v : String) × Leads direction row u v)

  -- An edge with the id leads from a node that is reached in fewer steps.
  abbrev pub Taken : ℕ → String → Type 0
  Taken n id = (j : ℕ) × (u : String) × (n ≡ suc j) × N j u × Leaves u id

  Taken-suc : {n : ℕ} {id : String} → Taken n id → Taken (suc n) id
  Taken-suc (j, u, e, w, l) = (suc j, u, ap suc e, Near-suc w, l)

  -- An edge leads from the first node to the second.
  abbrev Adjacent : String → String → Type 0
  Adjacent u v = (row : Edge) × In row edges × Leads direction row u v

  -- What holds after so many rounds.
  pub record Inv (k : ℕ) (s : Search) : Type 0 where
    pub sound : (v : String) → In v s.selected_nodes → N k v
    pub complete : (v : String) → N k v → In v s.selected_nodes
    pub queued : (v : String) → In v s.frontier → In v s.selected_nodes
    pub late : (v : String) (j : ℕ) → In v s.frontier → k ≡ suc j → ¬ N j v
    pub taken : (id : String) → In id s.selected_edges → Taken k id
    pub expanded :
        (u : String)
        → In u s.selected_nodes
        → In u s.frontier
          ⊎ (((v : String) → Adjacent u v → In v s.selected_nodes)
              × ((id : String) → Leaves u id → In id s.selected_edges))

  pub Inv-start : Inv 0 (start source)
  Inv-start = record {
    sound = λ v m. elim m [ inl e ↦ subst (N 0) e here | inr z ↦ absurd z ];
    complete = λ v w. inl (only w);
    queued = λ v m. m;
    late = λ v j m e. absurd (omega (arith, e));
    taken = λ id m. absurd m;
    expanded = λ u m. inl m;
  }
    where
      only : {v : String} → N 0 v → source ≡ v
      only here = refl

  module _ (k : ℕ) (s : Search) (inv : Inv k s) where
    abbrev swept : Round
    swept =
        scan direction s.frontier edges
          (record { next_frontier = []; selected_edges = s.selected_edges })

    abbrev found : List String
    found = fresh s.selected_nodes swept.next_frontier

    found-Near : (v : String) → In v swept.next_frontier → N (suc k) v
    found-Near v m = elim ((scan-next direction s.frontier edges _ v).0 m) [
      | inl z ↦ absurd z
      | inr (row, there, (u, queued, leads)) ↦
          step row (inv.sound u (inv.queued u queued)) there leads
    ]

    adjacent-found : (u v : String) → In u s.frontier → Adjacent u v → In v swept.next_frontier
    adjacent-found u v queued (row, there, leads) =
        (scan-next direction s.frontier edges _ v).1 (inr (row, there, (u, queued, leads)))

    -- A neighbour of a selected node is selected or found.
    closed :
        (u v : String) → In u s.selected_nodes → Adjacent u v → In v (s.selected_nodes ++ found)
    closed u v m a = elim (Bool-cases (has s.selected_nodes v)) [
      | inl t ↦ In-append_left v s.selected_nodes found (has→In _ v t)
      | inr f ↦ elim (inv.expanded u m) [
        | inr (nodes, _) ↦ In-append_left v s.selected_nodes found (nodes v a)
        | inl queued ↦
            In-append_right v s.selected_nodes found
              (keep-In _ swept.next_frontier v (adjacent-found u v queued a) (ap not f))
      ]
    ]

    swept-Taken : (id : String) → In id swept.selected_edges → Taken (suc k) id
    swept-Taken id m = elim ((scan-edges direction s.frontier edges _ id).0 m) [
      | inl old ↦ Taken-suc (inv.taken id old)
      | inr (row, there, (e, (v, (u, queued, leads)))) ↦
          (k, u, refl, inv.sound u (inv.queued u queued), (row, there, e, (v, leads)))
    ]

    leaves-swept :
        (u id : String) → In u s.selected_nodes → Leaves u id → In id swept.selected_edges
    leaves-swept u id m (row, there, e, (v, leads)) =
        (scan-edges direction s.frontier edges _ id).1 (elim (inv.expanded u m) [
          | inl queued ↦ inr (row, there, (e, (v, (u, queued, leads))))
          | inr (_, ids) ↦ inl (ids id (row, there, e, (v, leads)))
        ])

    Inv-round : Inv (suc k) (record {
      selected_nodes = s.selected_nodes ++ found;
      selected_edges = swept.selected_edges;
      frontier = found;
    })
    Inv-round = record {
      sound = λ v m. elim (In-append v s.selected_nodes found m) [
        | inl old ↦ Near-suc (inv.sound v old)
        | inr new ↦ found-Near v (In-keep _ swept.next_frontier v new).0
      ];
      complete = λ v w. reached v w;
      queued = λ v m. In-append_right v s.selected_nodes found m;
      late = λ v j m e w.
          let fresh_node = (In-keep _ swept.next_frontier v m).1 in
          has_false→not_In _ _ (not-true _ fresh_node)
            (inv.complete v (subst (λ n. N n v) (sym (suc_injective e)) w));
      taken = swept-Taken;
      expanded = λ u m. elim (In-append u s.selected_nodes found m) [
        | inr new ↦ inl new
        | inl old ↦ inr ((λ v a. closed u v old a), λ id l. leaves-swept u id old l)
      ];
    }
      where
        reached : (v : String) → N (suc k) v → In v (s.selected_nodes ++ found)
        reached v here = In-append_left v s.selected_nodes found (inv.complete v here)
        reached v (step {u} row w there leads) = closed u v (inv.complete u w) (row, there, leads)

    -- Where a round finds nothing, the selected nodes are all that walks reach.
    found_nothing : found ≡ [] → {n : ℕ} {v : String} → N n v → In v s.selected_nodes
    found_nothing none here = inv.complete source here
    found_nothing none (step {v = v} row w there leads) =
        elim (In-append v s.selected_nodes found
          (closed _ v (found_nothing none w) (row, there, leads))) [
            | inl old ↦ old
            | inr new ↦ absurd (subst (In v) none new)
          ]

  -- The sets that the search ends with.
  pub record Reaches (n : ℕ) (t : Search) : Type 0 where
    pub reached : (v : String) → In v t.selected_nodes ↔ N n v
    pub crossed : (id : String) → In id t.selected_edges ↔ Taken n id

  Inv-Reaches : (k : ℕ) (s : Search) → Inv k s → Reaches k s
  Inv-Reaches k s inv = record {
    reached = λ v. (inv.sound v, inv.complete v);
    crossed = λ id. (
      inv.taken id,
      λ (j, u, e, w, l).
          let at = inv.complete u (subst (λ n. N n u) (sym e) (Near-suc w)) in
          elim (inv.expanded u at) [
            | inl queued ↦ absurd (inv.late u j queued e w)
            | inr (_, ids) ↦ ids id l
          ],
    );
  }

  Near-add : (k : ℕ) (v : String) (m : ℕ) → N k v → N (k + m) v
  Near-add k v zero w = subst (λ n. N n v) (omega arith) w
  Near-add k v (suc m) w = subst (λ n. N n v) (omega arith) (Near-suc (Near-add k v m w))

  Taken-add : (k : ℕ) (id : String) (m : ℕ) → Taken k id → Taken (k + m) id
  Taken-add k id zero w = subst (λ n. Taken n id) (omega arith) w
  Taken-add k id (suc m) w = subst (λ n. Taken n id) (omega arith) (Taken-suc (Taken-add k id m w))

  stopped-Reaches :
      (k m : ℕ) (s : Search) (inv : Inv k s)
      → found k s inv ≡ []
      → Reaches (suc k + m) (record s { selected_edges = (swept k s inv).selected_edges })
  stopped-Reaches k m s inv none = record {
    reached = λ v. (
      λ old. Near-add (suc k) v m (Near-suc (inv.sound v old)),
      λ w. found_nothing k s inv none w,
    );
    crossed = λ id. (
      λ old. Taken-add (suc k) id m (swept-Taken k s inv id old),
      λ (j, u, e, w, l). leaves-swept k s inv u id (found_nothing k s inv none w) l,
    );
  }

  pub rounds-Reaches :
      (depth k : ℕ) (s : Search) → Inv k s → Reaches (k + depth) (rounds direction edges depth s)
  unfolding rounds
  rounds-Reaches zero k s inv = subst (λ n. Reaches n s) (omega arith) (Inv-Reaches k s inv)
  rounds-Reaches (suc depth) k s inv =
      let count : suc k + depth ≡ k + suc depth = omega arith in
      subst (λ n. Reaches n (rounds direction edges (suc depth) s)) count
        (elim (List-cases (found k s inv)) [
          | inl none ↦ rw (none, rounds) (stopped-Reaches k depth s inv none)
          | inr (x, rest, e) ↦
              let ih = rounds-Reaches depth (suc k) _ (Inv-round k s inv) in rw (e, rounds) ih
        ])
