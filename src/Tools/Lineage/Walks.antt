-- ===== src/Tools/Lineage/Walks.antt =====
-- The lineage trace of gateway.py selects what bounded walks reach.
use probabilistic_ai_inciden.Base.{
  ◌≡◌, ◌↔◌, refl, subst, ℕ, ◌+◌, String, true, false, List, [], ◌∷◌, arith, string_eq, ok, any,
  keep, ◌==◌,
}
use probabilistic_ai_inciden.Base.Membership.{In, has, has→In, In→has}
use probabilistic_ai_inciden.Base.Lookup.{In-keep, keep-In}
use probabilistic_ai_inciden.Tools.Lineage.{
  Node, Edge, Direction, Trace, rounds, is_empty, start, lineage_trace,
}
use probabilistic_ai_inciden.Tools.Lineage.Invariant.{
  Near, Taken, Reaches, Inv-start, rounds-Reaches,
}

-- The rows whose key is in a set.
keep-has :
    {A : Type 0} (key : A → String) (set : List String) (rows : List A)
    → ((a : A) → In a (keep (λ x. has set (key x)) rows) → In a rows × In (key a) set)
      × ((a : A) → In a rows → In (key a) set → In a (keep (λ x. has set (key x)) rows))
keep-has key set rows = (
  λ a m. let (row, at) = In-keep (λ x. has set (key x)) rows a m in (row, has→In set (key a) at),
  λ a row at. keep-In (λ x. has set (key x)) rows a row (In→has set (key a) at),
)

-- The trace of a node that is there, of a table with edges, returns, and has exactly the nodes that
-- a walk of at most `depth` edges in the direction leads to from that node, and exactly the edges
-- whose id is that of an edge which leads in the direction from a node within less than that.
pub lineage_trace-walks :
    (nodes : List Node) (edges : List Edge) (node_id : String) (direction : Direction) (depth : ℕ)
    → any (λ (n : Node). n.node_id == node_id) nodes ≡ true
    → is_empty edges ≡ false
    → (trace : Trace) × (lineage_trace nodes edges node_id direction depth ≡ ok trace)
      × ((n : Node)
          → In n trace.nodes ↔ (In n nodes × Near direction edges node_id depth n.node_id))
      × ((e : Edge)
          → In e trace.edges ↔ (In e edges × Taken direction edges node_id depth e.edge_id))
unfolding lineage_trace
lineage_trace-walks [] edges node_id direction depth there some_edges = cc
lineage_trace-walks (first ∷ others) edges node_id direction depth there some_edges =
    let nodes = first ∷ others in
    let t = rounds direction edges depth (start node_id) in
    let zero_add : 0 + depth ≡ depth = omega arith in
    let done =
      subst (λ n. Reaches direction edges node_id n (rounds direction edges depth (start node_id)))
        zero_add
        (rounds-Reaches direction edges node_id depth 0 (start node_id)
          (Inv-start direction edges node_id)) in
    let kept = keep-has (λ (n : Node). n.node_id) t.selected_nodes nodes in
    let edges_kept = keep-has (λ (e : Edge). e.edge_id) t.selected_edges edges in
    (
      record {
        nodes = keep (λ (n : Node). has t.selected_nodes n.node_id) nodes;
        edges = keep (λ (e : Edge). has t.selected_edges e.edge_id) edges;
      },
      rw some_edges (rw there refl),
      λ n. (
        λ m. let (row, at) = kept.0 n m in (row, (done.reached n.node_id).0 at),
        λ (row, w). kept.1 n row ((done.reached n.node_id).1 w),
      ),
      λ e. (
        λ m. let (row, at) = edges_kept.0 e m in (row, (done.crossed e.edge_id).0 at),
        λ (row, w). edges_kept.1 e row ((done.crossed e.edge_id).1 w),
      ),
    )
