-- ===== src/Model/Graph/Index.antt =====
-- The node index of model/graph.go and the list of nodes.
use dfgo.Prelude.{
  ℕ, zero, suc, ◌≡◌, refl, String, Option, none, some, List, [], ◌∷◌, ◌++◌, length, get_elem?,
  find?, str_eq, eq_iff, arith, if◌then◌else◌, inl, inr, Option-cases,
}
use dfgo.Prelude.Dict.{Dict, get, merge, get-put}
use dfgo.Model.Graph.{Node, Edge, Graph, new_graph, merge_at, add_node, add_edge, node_by_id}

-- The position of the first node with an ID.
abbrev pub position : String → List Node → Option ℕ
position id [] = none
position id (n ∷ ns) =
    if str_eq n.id id then some 0 else elim (position id ns) [ none ↦ none | some i ↦ some (suc i) ]

abbrev pub find_node : String → List Node → Option Node
find_node id ns = find? (λ n. str_eq n.id id) ns

-- Every pointer of the index is the first node with its key, and every node has one.
pub record IsIndexed (g : Graph) : Type 0 where
  pub at : (id : String) → get g.nodes_by_id id ≡ position id g.nodes

pub new_graph-IsIndexed : (name : String) → IsIndexed (new_graph name)
unfolding get
new_graph-IsIndexed name = record { at = λ id. refl }

position-append :
    (id : String) (ns : List Node) (n : Node)
    → position id ns ≡ none
    → position id (ns ++ n ∷ []) ≡ (if str_eq n.id id then some (length ns) else none)
position-append id [] n h = ground arith
position-append id (m ∷ ns) n h = ground (arith, position-append id ns n)

position-append_some :
    (id : String) (ns : List Node) (n : Node) (i : ℕ)
    → position id ns ≡ some i
    → position id (ns ++ n ∷ []) ≡ some i
position-append_some id [] n i h = cc
position-append_some id (m ∷ ns) n zero h = ground arith
position-append_some id (m ∷ ns) n (suc i) h = ground (arith, position-append_some id ns n i)

position-merge_at :
    (id : String) (ns : List Node) (i : ℕ) (new : Dict String)
    → position id (merge_at ns i new) ≡ position id ns
unfolding merge_at
position-merge_at id [] i new = refl
position-merge_at id (n ∷ ns) zero new = refl
position-merge_at id (n ∷ ns) (suc i) new = rw (position-merge_at id ns i new)

add_node_known :
    (g : Graph) (n : Node) {i : ℕ}
    → IsIndexed g
    → position n.id g.nodes ≡ some i
    → IsIndexed (add_node g n)
unfolding add_node
add_node_known g n {i} h e = record {
  at = λ id. ground (arith, h.at n.id, h.at id, position-merge_at id g.nodes i n.attrs);
}

add_node_new :
    (g : Graph) (n : Node) → IsIndexed g → position n.id g.nodes ≡ none → IsIndexed (add_node g n)
unfolding add_node
add_node_new g n h e = record {
  at = λ id. elim (Option-cases (position id g.nodes)) [
    | inl p ↦ ground (
      arith,
      h.at n.id,
      h.at id,
      get-put g.nodes_by_id n.id id (length g.nodes),
      position-append id g.nodes n p,
    )
    | inr (j, p) ↦ ground (
      arith,
      h.at n.id,
      h.at id,
      get-put g.nodes_by_id n.id id (length g.nodes),
      position-append_some id g.nodes n j p,
      eq_iff n.id id,
    )
  ];
}

-- `AddNode` keeps the index in step, for a new node and for one that is merged.
pub add_node-IsIndexed : (g : Graph) (n : Node) → IsIndexed g → IsIndexed (add_node g n)
add_node-IsIndexed g n h = elim (Option-cases (position n.id g.nodes)) [
  | inl e ↦ add_node_new g n h e
  | inr (i, e) ↦ add_node_known g n h e
]

pub add_edge-IsIndexed : (g : Graph) (e : Edge) → IsIndexed g → IsIndexed (add_edge g e)
unfolding add_edge
add_edge-IsIndexed g e h = record { at = h.at }

get_elem?-position :
    (id : String) (ns : List Node)
    → (elim (position id ns) [ none ↦ none | some i ↦ get_elem? ns i ]) ≡ find_node id ns
get_elem?-position id [] = refl
get_elem?-position id (n ∷ ns) = ground (arith, get_elem?-position id ns)

-- `NodeByID` returns the first node with the ID.
pub node_by_id-eq-find_node :
    (g : Graph) (id : String) → IsIndexed g → node_by_id g id ≡ find_node id g.nodes
unfolding node_by_id
node_by_id-eq-find_node g id h = rw (h.at id, node_by_id) (get_elem?-position id g.nodes)

abbrev pub merged : Option Node → Node → Node
merged none n = n
merged (some old) n = record old { attrs = merge old.attrs n.attrs }

find_node-append :
    (id : String) (ns : List Node) (n : Node)
    → position n.id ns ≡ none
    → find_node id (ns ++ n ∷ []) ≡ (if str_eq n.id id then some n else find_node id ns)
find_node-append id [] n h = refl
find_node-append id (m ∷ ns) n h =
    ground (arith, find_node-append id ns n, eq_iff m.id id, eq_iff n.id id, eq_iff m.id n.id)

find_node-none : (id : String) (ns : List Node) → position id ns ≡ none → find_node id ns ≡ none
find_node-none id [] h = refl
find_node-none id (n ∷ ns) h = ground (arith, find_node-none id ns)

find_node-merge_at :
    (k id : String) (ns : List Node) (i : ℕ) (n : Node)
    → position k ns ≡ some i
    → find_node id (merge_at ns i n.attrs)
      ≡ (if str_eq k id then some (merged (find_node k ns) n) else find_node id ns)
unfolding merge_at
find_node-merge_at k id [] i n h = cc
find_node-merge_at k id (m ∷ ns) zero n h =
    ground (arith, eq_iff m.id k, eq_iff m.id id, eq_iff k id)
find_node-merge_at k id (m ∷ ns) (suc i) n h =
    ground (arith, find_node-merge_at k id ns i n, eq_iff m.id k, eq_iff m.id id, eq_iff k id)

find_node-add_node :
    (g : Graph) (n : Node) (id : String)
    → IsIndexed g
    → find_node id (add_node g n).nodes
      ≡ (if str_eq n.id id then some (merged (find_node n.id g.nodes) n) else find_node id g.nodes)
unfolding add_node
find_node-add_node g n id h = elim (Option-cases (position n.id g.nodes)) [
  | inl p ↦
      ground (arith, h.at n.id, find_node-append id g.nodes n p, find_node-none n.id g.nodes p)
  | inr (i, p) ↦ ground (arith, h.at n.id, find_node-merge_at n.id id g.nodes i n p)
]

-- What `NodeByID` finds after `AddNode`: under the new node's ID the node itself, or the old one
-- with the attributes of both, the new ones first; under any other ID what was there before.
pub node_by_id-add_node :
    (g : Graph) (n : Node) (id : String)
    → IsIndexed g
    → node_by_id (add_node g n) id
      ≡ (if str_eq n.id id then some (merged (node_by_id g n.id) n) else node_by_id g id)
node_by_id-add_node g n id h =
    rw
      (
        node_by_id-eq-find_node _ id (add_node-IsIndexed g n h),
        node_by_id-eq-find_node g n.id h,
        node_by_id-eq-find_node g id h,
      )
      (find_node-add_node g n id h)
