-- ===== src/Engine/Lifecycle/Ready.antt =====
-- internal/attractor/engine.go: what `Prepare` promises to `Execute`.
use dfgo.Prelude.{
  ℕ, String, List, [], ◌∷◌, some, none, str_eq, map, find?-All, ◌≡◌, refl, Bool-cases, inl, inr,
  Option-cases, arith, All-mono,
}
use mathlib.Core.Path.{subst}
use dfgo.Prelude.Dict.{get}
use dfgo.Prelude.Result.{Result, ok, ◌>>=◌, bind-eq-ok, Result-cases}
use dfgo.Dot.Token.{Unicode}
use dfgo.Dot.Parser.{parse}
use dfgo.Dot.Parser.Built.{parse-IsWellFormed}
use dfgo.Model.Graph.{Node, Edge, Graph, start_node, has_shape}
use dfgo.Model.Graph.Index.{IsIndexed, position}
use dfgo.Model.Attrs.{Floats}
use dfgo.Style.{Stylesheet, parse_stylesheet, apply, style_node}
use dfgo.Validate.Diagnostic.{has_errors}
use dfgo.Validate.Runner.{builtin_rules}
use dfgo.Validate.Runner
use dfgo.Validate.Rules.Errors.{start_of_one}
use dfgo.Validate.Sound.{IsRunnable, run-IsRunnable}
use dfgo.Runtime.Checkpoint.{VisitEntry}
use dfgo.Engine.State.{RunError, World, Registry, State}
use dfgo.Engine.Targets.{Present, IsSound, nodes-Present}
use dfgo.Engine.Lands.{steps-IsExpected}
use dfgo.Engine.Parts.{IsExpected}
use dfgo.Engine.Lifecycle.{PrepareError, apply_stylesheet, validate, parse_graph, prepare, execute}

-- The graph is indexed and what the rules of severity error ask for.
pub record IsReady (g : Graph) : Type 0 where
  pub indexed : IsIndexed g
  pub runnable : IsRunnable g

position-map :
    (ss : Stylesheet) (id : String) (ns : List Node)
    → position id (map (style_node ss) ns) ≡ position id ns
position-map ss id [] = refl
position-map ss id (n ∷ ns) = ground (arith, position-map ss id ns)

apply-IsIndexed : (ss : Stylesheet) (g : Graph) → IsIndexed g → IsIndexed (apply ss g)
unfolding apply
apply-IsIndexed ss g h = record { at = λ id. rw (position-map ss id g.nodes) (h.at id) }

abbrev good : Graph → Result PrepareError Graph
good g = ok g

same_graph : (g h : Graph) → good g ≡ good h → g ≡ h
same_graph g h e = cc

apply_stylesheet-IsIndexed : (g h : Graph) → apply_stylesheet g ≡ ok h → IsIndexed g → IsIndexed h
unfolding apply_stylesheet
apply_stylesheet-IsIndexed g h e ix = elim (Option-cases (get g.attrs "model_stylesheet")) [
  | inl p ↦ subst IsIndexed (same_graph g h (rw (p, apply_stylesheet) at e)) ix
  | inr (src, p) ↦ elim (Bool-cases (str_eq src "")) [
    | inl b ↦ subst IsIndexed (same_graph g h (rw (p, b, apply_stylesheet) at e)) ix
    | inr b ↦ elim (Result-cases (parse_stylesheet src)) [
      | inl (ss, q) ↦
          subst IsIndexed (same_graph (apply ss g) h (rw (p, b, q, apply_stylesheet) at e))
            (apply-IsIndexed ss g ix)
      | inr (x, q) ↦ absurd (cc (rw (p, b, q, apply_stylesheet) at e))
    ]
  ]
]

validate-IsRunnable :
    (known : List String) (g h : Graph) → validate known g ≡ ok h → (g ≡ h) × IsRunnable h
unfolding validate
validate-IsRunnable known g h e =
    elim (Bool-cases (has_errors (Runner.run (builtin_rules known) g))) [
      | inl b ↦ absurd (cc (rw (b, validate) at e))
      | inr b ↦
          let same : g ≡ h = same_graph g h (rw (b, validate) at e) in
          (same, subst IsRunnable same ((run-IsRunnable known g).0 b))
    ]

parse_graph-IsIndexed :
    (u : Unicode) (src : String) (g : Graph) → parse_graph u src ≡ ok g → IsIndexed g
parse_graph-IsIndexed u src g e = elim (Result-cases (parse u src)) [
  | inl (h, p) ↦
      subst IsIndexed (same_graph h g (rw (p, parse_graph) at e))
        (parse-IsWellFormed u src h p).indexed
  | inr (x, p) ↦ absurd (cc (rw (p, parse_graph) at e))
]

-- A graph that the phases before the run let through is indexed by ID and is one in which the
-- rules find no error, whatever its text was.
pub prepare-IsReady :
    (u : Unicode) (known : List String) (src : String) (g : Graph)
    → prepare u known src ≡ ok g
    → IsReady g
unfolding prepare
prepare-IsReady u known src g e =
    let (styled, p, q) = bind-eq-ok (parse_graph u src >>= apply_stylesheet) (validate known) e in
    let (parsed, r, s) = bind-eq-ok (parse_graph u src) apply_stylesheet p in
    let valid = validate-IsRunnable known styled g q in
    record {
      indexed =
          subst IsIndexed valid.0
            (apply_stylesheet-IsIndexed parsed styled s (parse_graph-IsIndexed u src parsed r));
      runnable = valid.1;
    }

IsSound-of_IsReady : (g : Graph) → IsReady g → IsSound g
IsSound-of_IsReady g r = record {
  indexed = r.indexed;
  leads =
      All-mono (λ (e : Edge). Present g e.from × Present g e.to) (λ (e : Edge). Present g e.to)
        (λ e p. p.1) g.edges r.runnable.joins;
}

start-Present :
    (g : Graph) → IsReady g → (start : Node) → start_node g ≡ some start → Present g start.id
unfolding start_node
start-Present g r start e =
    find?-All (λ (n : Node). Present g n.id) (has_shape "Mdiamond") g.nodes start e
      (nodes-Present g r.indexed)

-- A run of a graph that `Prepare` let through, from its start node, fails only because the
-- context ended, a node has no handler, a handler returned an error, or a goal gate is unsatisfied
-- with no retry left: there is a start node, every node the run moves to is there, and the
-- selector finds an edge wherever there is one.
pub execute-IsExpected :
    (fl : Floats) {w : World} (preamble : String → String → String → List VisitEntry → String)
    (registry : Registry w) (u : Unicode) (known : List String) (src : String) (fuel : ℕ)
    (g : Graph) (s : State w) (x : RunError) (t : State w)
    → prepare u known src ≡ ok g
    → execute fl preamble registry fuel g none s ≡ some (some x, t)
    → IsExpected x
unfolding execute
execute-IsExpected fl preamble registry u known src fuel g s x t p e =
    let ready = prepare-IsReady u known src g p in
    let start = start_of_one g ready.runnable.start ready.runnable.one_start in
    steps-IsExpected g (IsSound-of_IsReady g ready) fl preamble registry fuel
      ready.runnable.start.id _ x t (start-Present g ready ready.runnable.start start)
      (rw (start, execute) at e)
