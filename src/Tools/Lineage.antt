-- ===== src/Tools/Lineage.antt =====
-- `Gateway._lineage_trace` of src/paic/tools/gateway.py. A table is the list of its rows; a set of
-- texts is a list, of which only the membership counts.
pub mod Rounds
pub mod Invariant
pub mod Walks
use probabilistic_ai_inciden.Base.{
  ℕ, zero, suc, String, Bool, true, false, not, ◌&&◌, ◌||◌, List, [], ◌∷◌, ◌++◌, map, any, keep,
  ◌==◌, string_eq, Result, ok, err, ◌>>=◌, ◌>>◌, reject_if, if◌then◌else◌,
}
use probabilistic_ai_inciden.Base.Membership.{has}

-- A row of `lineage_nodes`, with the text of its other columns.
pub record Node : Type 0 where
  pub node_id : String
  pub columns : String

-- A row of `lineage_edges`, with the text of its other columns.
pub record Edge : Type 0 where
  pub edge_id : String
  pub upstream_node_id : String
  pub downstream_node_id : String
  pub columns : String

pub data Direction : Type 0 where
  both upstream downstream : Direction

-- `direction in {"both", "downstream"}`
abbrev pub goes_down : Direction → Bool
goes_down upstream = false
goes_down _ = true

-- `direction in {"both", "upstream"}`
abbrev pub goes_up : Direction → Bool
goes_up downstream = false
goes_up _ = true

pub data GatewayError : Type 0 where
  unknown_node : GatewayError

pub record Trace : Type 0 where
  pub nodes : List Node
  pub edges : List Edge

-- The sets that a round fills.
pub record Round : Type 0 where
  pub next_frontier : List String
  pub selected_edges : List String

-- The neighbours of the frontier over one edge.
unfoldable pub ends : Direction → List String → Edge → List String
ends direction frontier row =
    (if goes_down direction && has frontier row.upstream_node_id
      then row.downstream_node_id ∷ []
      else [])
    ++ (if goes_up direction && has frontier row.downstream_node_id
        then row.upstream_node_id ∷ []
        else [])

-- `include`
unfoldable pub include : Direction → List String → Edge → Bool
include direction frontier row =
    (goes_down direction && has frontier row.upstream_node_id)
    || (goes_up direction && has frontier row.downstream_node_id)

-- The body of the loop over the rows.
unfoldable pub visit : Direction → List String → Edge → Round → Round
visit direction frontier row r = record {
  next_frontier = ends direction frontier row ++ r.next_frontier;
  selected_edges =
      if include direction frontier row then row.edge_id ∷ r.selected_edges else r.selected_edges;
}

unfoldable pub scan : Direction → List String → List Edge → Round → Round
scan direction frontier [] r = r
scan direction frontier (row ∷ rest) r =
    scan direction frontier rest (visit direction frontier row r)

-- The sets between two rounds.
pub record Search : Type 0 where
  pub selected_nodes : List String
  pub selected_edges : List String
  pub frontier : List String

-- `next_frontier - selected_nodes`
abbrev pub fresh : List String → List String → List String
fresh selected = keep (λ n. not (has selected n))

-- The loop over the depth, which ends early where a round finds no new node.
unfoldable pub rounds : Direction → List Edge → ℕ → Search → Search
rounds direction edges zero s = s
rounds direction edges (suc depth) s =
    let r =
      scan direction s.frontier edges
        (record { next_frontier = []; selected_edges = s.selected_edges }) in
    let found = fresh s.selected_nodes r.next_frontier in
    let rest = rounds direction edges depth (record {
      selected_nodes = s.selected_nodes ++ found;
      selected_edges = r.selected_edges;
      frontier = found;
    }) in
    elim found [ [] ↦ record s { selected_edges = r.selected_edges } | _ ∷ _ ↦ rest ]

abbrev pub is_empty {ℓ} : {A : Type ℓ} → List A → Bool
is_empty [] = true
is_empty (x ∷ xs) = false

abbrev pub start : String → Search
start node_id = record {
  selected_nodes = node_id ∷ [];
  selected_edges = [];
  frontier = node_id ∷ [];
}

-- `_lineage_trace`
unfoldable pub lineage_trace :
    List Node → List Edge → String → Direction → ℕ → Result GatewayError Trace
lineage_trace nodes edges node_id direction depth =
    if is_empty nodes || is_empty edges then ok (record { nodes = []; edges = [] }) else (do
      reject_if (not (any (λ (n : Node). n.node_id == node_id) nodes)) unknown_node
      let s = rounds direction edges depth (start node_id)
      ok (record {
        nodes = keep (λ (n : Node). has s.selected_nodes n.node_id) nodes;
        edges = keep (λ (e : Edge). has s.selected_edges e.edge_id) edges;
      }))
