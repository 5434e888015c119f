-- ===== src/Model/Graph/Edges.antt =====
-- The edges of a node in model/graph.go.
use dfgo.Prelude.{
  String, ◌≡◌, Bool, false, map, All-keep, List, [], ◌∷◌, keep, str_eq, All, arith, Bool-cases, inl,
  inr, ◌<◌,
}
use dfgo.Prelude.Sort.{IsSorted, sort-perm, sort_of_IsSorted, All-sort}
use dfgo.Model.Graph.{Edge, Graph, by_order, out_edges, successors}
use mathlib.Core.List.{Perm}

-- The edges stand in declaration order, each order once.
abbrev pub IsOrdered : List Edge → Type 0
IsOrdered [] = Unit
IsOrdered (e ∷ es) = All (λ (d : Edge). e.order < d.order) es × IsOrdered es

-- `OutEdges` returns exactly the edges that leave the node, each as often as the graph has it.
pub out_edges-perm :
    (g : Graph) (id : String) → Perm (out_edges g id) (keep (λ e. str_eq e.from id) g.edges)
unfolding out_edges
out_edges-perm g id = sort-perm by_order _

none_earlier-keep :
    (e : Edge) (p : Edge → Bool) (es : List Edge)
    → All (λ (d : Edge). e.order < d.order) es
    → All (λ d. by_order d e ≡ false) (keep p es)
none_earlier-keep e p [] h = tt
none_earlier-keep e p (d ∷ es) h = elim (Bool-cases (p d)) [
  | inl b ↦ rw b (ground arith, none_earlier-keep e p es h.1)
  | inr b ↦ rw b (none_earlier-keep e p es h.1)
]

keep-IsSorted : (p : Edge → Bool) (es : List Edge) → IsOrdered es → IsSorted by_order (keep p es)
keep-IsSorted p [] h = tt
keep-IsSorted p (e ∷ es) h = elim (Bool-cases (p e)) [
  | inl b ↦ rw b (none_earlier-keep e p es h.0, keep-IsSorted p es h.1)
  | inr b ↦ rw b (keep-IsSorted p es h.1)
]

-- On edges in declaration order `OutEdges` is a plain filter.
pub out_edges_of_IsOrdered :
    (g : Graph) (id : String)
    → IsOrdered g.edges
    → out_edges g id ≡ keep (λ e. str_eq e.from id) g.edges
unfolding out_edges
out_edges_of_IsOrdered g id h = sort_of_IsSorted by_order _ (keep-IsSorted _ g.edges h)

-- What all edges have, those that leave a node have.
module _ (g : Graph) where
  pub out_edges-All : (P : Edge → Type 0) (id : String) → All P g.edges → All P (out_edges g id)
  unfolding out_edges
  out_edges-All P id h = All-sort by_order P _ (All-keep P (λ e. str_eq e.from id) g.edges h)

  pub successors-All :
      (P : String → Type 0) (id : String)
      → All (λ (e : Edge). P e.to) g.edges
      → All P (successors g id)
  unfolding successors
  successors-All P id h = ends (out_edges g id) (out_edges-All (λ e. P e.to) id h)
    where
      ends : (es : List Edge) → All (λ (e : Edge). P e.to) es → All P (map (λ e. e.to) es)
      ends [] h = tt
      ends (e ∷ es) h = (h.0, ends es h.1)
