-- ===== src/Dot/Parser/Declares.antt =====
-- internal/attractor/dot/parser.go: what the parser does to the graph.
use dfgo.Prelude.{
  ◌<◌, ◌≡◌, ◌≢◌, sym, String, none, List, [], ◌∷◌, ◌++◌, arith, All, All-append, All-mono, eq_refl,
  Option-cases, inl, inr,
}
use mathlib.Core.Path.{subst}
use dfgo.Prelude.Dict.{Dict}
use dfgo.Prelude.Result.{Result, ok, err}
use dfgo.Model.Graph.{Node, Edge, Graph, node_by_id, add_node, add_edge}
use dfgo.Model.Graph.Index.{IsIndexed, new_graph-IsIndexed, add_node-IsIndexed, node_by_id-add_node}
use dfgo.Model.Graph.Edges.{IsOrdered}
use dfgo.Dot.Parser.Monad.{State, ParseError, ◌>>=◌}
use dfgo.Dot.Parser.Monad.Keeps.{Keeps, Ends, Ends-bind}
use dfgo.Dot.Parser.{
  set_graph_attrs, set_graph_attr, declare_node, ensure_node, ensure_nodes, declare_edge,
  declare_edges, start_graph,
}

-- The node with this ID is there.
abbrev pub Declared : Graph → String → Type 0
Declared g id = node_by_id g id ≢ none

-- The index of nodes is in step, the edges stand in declaration order, and each joins two nodes
-- of the graph.
pub record IsWellFormed (g : Graph) : Type 0 where
  pub indexed : IsIndexed g
  pub ordered : IsOrdered g.edges
  pub joined : All (λ (e : Edge). Declared g e.from × Declared g e.to) g.edges

-- The orders given so far are below the next.
pub record IsBuilt (s : State) : Type 0 where
  pub formed : IsWellFormed s.graph
  pub below : All (λ (e : Edge). e.order < s.edge_order) s.graph.edges

-- Every node stays declared.
abbrev Extends : Graph → Graph → Type 0
Extends g h = (id : String) → Declared g id → Declared h id

add_node-Extends : (g : Graph) (n : Node) → IsIndexed g → Extends g (add_node g n)
add_node-Extends g n h id d = rw (node_by_id-add_node g n id h) (ground (arith, d))

add_node-Declared : (g : Graph) (n : Node) → IsIndexed g → Declared (add_node g n) n.id
add_node-Declared g n h = rw (node_by_id-add_node g n n.id h, eq_refl n.id) (λ p. cc)

edges-add_node : (g : Graph) (n : Node) → (add_node g n).edges ≡ g.edges
unfolding add_node
edges-add_node g n = ground arith

abbrev Joined : Graph → Edge → Type 0
Joined g e = Declared g e.from × Declared g e.to

Joined-Extends :
    (g h : Graph) (es : List Edge) → Extends g h → All (Joined g) es → All (Joined h) es
Joined-Extends g h es x = All-mono (Joined g) (Joined h) (λ e j. (x e.from j.0, x e.to j.1)) es

add_node-IsWellFormed : (g : Graph) (n : Node) → IsWellFormed g → IsWellFormed (add_node g n)
add_node-IsWellFormed g n w = record {
  indexed = add_node-IsIndexed g n w.indexed;
  ordered = rw (edges-add_node g n) w.ordered;
  joined =
      subst (λ es. All (Joined (add_node g n)) es) (sym (edges-add_node g n))
        (Joined-Extends g (add_node g n) g.edges (add_node-Extends g n w.indexed) w.joined);
}

-- What `ensure_node` leaves: the graph has grown, and has the node.
record Ensured (s : State) (id : String) (t : State) : Type 0 where
  built : IsBuilt t
  extends : Extends s.graph t.graph
  declared : Declared t.graph id

declare_node-Ensured :
    (id : String) (attrs : Dict String) (s : State)
    → IsBuilt s
    → Ends (λ _. Ensured s id) (declare_node id attrs s)
unfolding declare_node
declare_node-Ensured id attrs s b =
    let n : Node = record { id = id; attrs = attrs; order = s.node_order } in
    record {
      built = record {
        formed = add_node-IsWellFormed s.graph n b.formed;
        below = rw (edges-add_node s.graph n) b.below;
      };
      extends = add_node-Extends s.graph n b.formed.indexed;
      declared = add_node-Declared s.graph n b.formed.indexed;
    }

ensure_node-Ensured :
    (attrs : Dict String) (id : String) (s : State)
    → IsBuilt s
    → Ends (λ _. Ensured s id) (ensure_node attrs id s)
unfolding ensure_node
ensure_node-Ensured attrs id s b = elim (Option-cases (node_by_id s.graph id)) [
  | inl e ↦ rw (e, ensure_node) (declare_node-Ensured id attrs s b)
  | inr (n, e) ↦
      rw (e, ensure_node) (record { built = b; extends = λ j d. d; declared = λ p. cc (e, p) })
]

record AllEnsured (s : State) (ids : List String) (t : State) : Type 0 where
  built : IsBuilt t
  extends : Extends s.graph t.graph
  declared : All (Declared t.graph) ids

ensure_nodes-AllEnsured :
    (attrs : Dict String) (ids : List String) (s : State)
    → IsBuilt s
    → Ends (λ _. AllEnsured s ids) (ensure_nodes attrs ids s)
unfolding ensure_nodes ◌>>=◌
ensure_nodes-AllEnsured attrs [] s b = record { built = b; extends = λ j d. d; declared = tt }
ensure_nodes-AllEnsured attrs (id ∷ ids) s b =
    Ends-bind (λ _. Ensured s id) (λ _. AllEnsured s (id ∷ ids)) (ensure_node attrs id) _ s
      (ensure_node-Ensured attrs id s b)
      λ _ t e. after s t e _ (ensure_nodes-AllEnsured attrs ids t e.built)
  where
    after :
        (s t : State)
        → Ensured s id t
        → (r : Result _ (Unit {0} × State)) → Ends (λ _. AllEnsured t ids) r
        → Ends (λ _. AllEnsured s (id ∷ ids)) r
    after s t e (ok (_, v)) a = record {
      built = a.built;
      extends = λ j d. a.extends j (e.extends j d);
      declared = (a.extends id e.declared, a.declared);
    }
    after s t e (err x) a = tt

IsOrdered-append :
    (es : List Edge) (e : Edge)
    → IsOrdered es
    → All (λ (d : Edge). d.order < e.order) es
    → IsOrdered (es ++ e ∷ [])
IsOrdered-append [] e h b = (tt, tt)
IsOrdered-append (d ∷ es) e h b =
    (All-append _ es (e ∷ []) h.0 (b.0, tt), IsOrdered-append es e h.1 b.1)

declare_edge-IsBuilt :
    (a b : String) (attrs : Dict String) (s : State)
    → IsBuilt s
    → Declared s.graph a
    → Declared s.graph b
    → Ends (λ _ t. IsBuilt t × Extends s.graph t.graph) (declare_edge a b attrs s)
unfolding declare_edge add_edge node_by_id
declare_edge-IsBuilt a b attrs s h da db =
    let e : Edge = record { from = a; to = b; attrs = attrs; order = s.edge_order } in
    (
      record {
        formed = record {
          indexed = record { at = h.formed.indexed.at };
          ordered = IsOrdered-append s.graph.edges e h.formed.ordered h.below;
          joined =
              All-append (Joined s.graph) s.graph.edges (e ∷ []) h.formed.joined ((da, db), tt);
        };
        below =
            All-append _ s.graph.edges (e ∷ [])
              (All-mono _ _ (λ d lt. omega arith) s.graph.edges h.below) (omega arith, tt);
      },
      λ j d. d,
    )

declare_edges-IsBuilt :
    (attrs : Dict String) (a : String) (ids : List String) (s : State)
    → IsBuilt s
    → All (Declared s.graph) (a ∷ ids)
    → Ends (λ _. IsBuilt) (declare_edges attrs a ids s)
unfolding declare_edges ◌>>=◌
declare_edges-IsBuilt attrs a [] s h d = h
declare_edges-IsBuilt attrs a (b ∷ ids) s h d =
    Ends-bind (λ _ t. IsBuilt t × Extends s.graph t.graph) (λ _. IsBuilt) (declare_edge a b attrs) _
      s (declare_edge-IsBuilt a b attrs s h d.0 d.1.0)
      λ _ t k. declare_edges-IsBuilt attrs b ids t k.0 (All-mono _ _ k.1 (b ∷ ids) d.1)

pub ensure_and_declare :
    (node_attrs attrs : Dict String) (a : String) (ids : List String)
    → Keeps IsBuilt (ensure_nodes node_attrs (a ∷ ids) >>= λ _. declare_edges attrs a ids)
ensure_and_declare node_attrs attrs a ids = record {
  at = λ s h.
      Ends-bind (λ _. AllEnsured s (a ∷ ids)) (λ _. IsBuilt) (ensure_nodes node_attrs (a ∷ ids)) _ s
        (ensure_nodes-AllEnsured node_attrs (a ∷ ids) s h)
        λ _ t e. declare_edges-IsBuilt attrs a ids t e.built e.declared;
}

pub declare_node-IsBuilt :
    (id : String) (attrs : Dict String) → Keeps IsBuilt (declare_node id attrs)
declare_node-IsBuilt id attrs = record {
  at = λ s h. drop_ensured s _ (declare_node-Ensured id attrs s h);
}
  where
    drop_ensured :
        (s : State) (r : Result _ (Unit {0} × State))
        → Ends (λ _. Ensured s id) r
        → Ends (λ _. IsBuilt) r
    drop_ensured s (ok (_, t)) e = e.built
    drop_ensured s (err x) e = tt

pub set_graph_attrs-IsBuilt : (attrs : Dict String) → Keeps IsBuilt (set_graph_attrs attrs)
unfolding set_graph_attrs node_by_id
set_graph_attrs-IsBuilt attrs = record {
  at = λ s h. record {
    formed = record {
      indexed = record { at = h.formed.indexed.at };
      ordered = h.formed.ordered;
      joined = h.formed.joined;
    };
    below = h.below;
  };
}

pub set_graph_attr-IsBuilt : (id value : String) → Keeps IsBuilt (set_graph_attr id value)
unfolding set_graph_attr node_by_id
set_graph_attr-IsBuilt id value = record {
  at = λ s h. record {
    formed = record {
      indexed = record { at = h.formed.indexed.at };
      ordered = h.formed.ordered;
      joined = h.formed.joined;
    };
    below = h.below;
  };
}

pub start_graph-IsBuilt : (name : String) → Keeps IsBuilt (start_graph name)
unfolding start_graph
start_graph-IsBuilt name = record {
  at = λ s h. record {
    formed = record { indexed = new_graph-IsIndexed name; ordered = tt; joined = tt };
    below = tt;
  };
}

pub ok_injective : {g h : Graph} → ◌≡◌ {A = Result ParseError Graph} (ok g) (ok h) → g ≡ h
ok_injective p = cc
