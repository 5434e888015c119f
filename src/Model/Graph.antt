-- ===== src/Model/Graph.antt =====
-- internal/attractor/model/graph.go: nodes, edges and the lookups. `nodes_by_id` holds pointers
-- into `Nodes`; a pointer is the position of its node here.
pub mod Index
pub mod Edges
use dfgo.Prelude.{
  ℕ, zero, suc, String, Option, none, some, Bool, List, [], ◌∷◌, ◌++◌, length, get_elem?, keep,
  find?, ltb, str_eq, map,
}
use dfgo.Prelude.Dict.{Dict, get, put, merge, index}
use dfgo.Prelude.Sort.{sort}

pub record Node : Type 0 where
  pub id : String
  pub attrs : Dict String
  pub order : ℕ

pub record Edge : Type 0 where
  pub from : String
  pub to : String
  pub attrs : Dict String
  pub order : ℕ

pub record Graph : Type 0 where
  pub name : String
  pub nodes : List Node
  pub edges : List Edge
  pub attrs : Dict String
  pub nodes_by_id : Dict ℕ

abbrev pub new_graph : String → Graph
new_graph name = record { name = name; nodes = []; edges = []; attrs = []; nodes_by_id = [] }

-- for k, v := range n.Attrs { existing.Attrs[k] = v }
unfoldable pub merge_at : List Node → ℕ → Dict String → List Node
merge_at [] i new = []
merge_at (n ∷ ns) zero new = record n { attrs = merge n.attrs new } ∷ ns
merge_at (n ∷ ns) (suc i) new = n ∷ merge_at ns i new

-- A nil map is the empty one: both read alike, and `AddNode` makes it one before any write.
unfoldable pub add_node : Graph → Node → Graph
unfolding merge_at
add_node g n = elim (get g.nodes_by_id n.id) [
  | some i ↦ record g { nodes = merge_at g.nodes i n.attrs }
  | none ↦ record g {
    nodes = g.nodes ++ n ∷ [];
    nodes_by_id = put g.nodes_by_id n.id (length g.nodes);
  }
]

unfoldable pub add_edge : Graph → Edge → Graph
add_edge g e = record g { edges = g.edges ++ e ∷ [] }

unfoldable pub node_by_id : Graph → String → Option Node
node_by_id g id = elim (get g.nodes_by_id id) [ none ↦ none | some i ↦ get_elem? g.nodes i ]

abbrev pub by_order : Edge → Edge → Bool
by_order a b = ltb a.order b.order

unfoldable pub out_edges : Graph → String → List Edge
out_edges g node_id = sort by_order (keep (λ e. str_eq e.from node_id) g.edges)

unfoldable pub in_edges : Graph → String → List Edge
in_edges g node_id = sort by_order (keep (λ e. str_eq e.to node_id) g.edges)

abbrev pub has_shape : String → Node → Bool
has_shape shape n = str_eq (index n.attrs "shape") shape

unfoldable pub start_node : Graph → Option Node
start_node g = find? (has_shape "Mdiamond") g.nodes

unfoldable pub exit_nodes : Graph → List Node
exit_nodes g = keep (has_shape "Msquare") g.nodes

unfoldable pub successors : Graph → String → List String
unfolding out_edges
successors g node_id = map (λ e. e.to) (out_edges g node_id)

unfoldable pub predecessors : Graph → String → List String
unfolding in_edges
predecessors g node_id = map (λ e. e.from) (in_edges g node_id)
