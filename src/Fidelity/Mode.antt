-- ===== src/Fidelity/Mode.antt =====
-- internal/attractor/fidelity/fidelity.go. A mode is its text.
use dfgo.Prelude.{
  String, Bool, true, ◌||◌, if◌then◌else◌, Option, some, none, str_eq, ◌≡◌, refl, Bool-cases, inl,
  inr,
}
use dfgo.Prelude.Dict.{index}
use dfgo.Model.Graph.{Node, Edge, Graph}
use dfgo.Model.Attrs.{string_attr}

unfoldable pub valid : String → Bool
valid m =
    str_eq m "full"
    || str_eq m "compact"
    || str_eq m "summary:high"
    || str_eq m "summary:medium"
    || str_eq m "summary:low"
    || str_eq m "truncate"

-- what a level of the chain gives: its mode, if it is valid
abbrev pub level : Option String → Option String
level none = none
level (some m) = if valid m then some m else none

abbrev pub or_next : Option String → String → String
or_next (some m) later = m
or_next none later = later

abbrev of_edge : Option Edge → Option String
of_edge none = none
of_edge (some e) = some (string_attr e.attrs "fidelity" "")

abbrev of_node : Option Node → Option String
of_node none = none
of_node (some n) = some (string_attr n.attrs "fidelity" "")

abbrev of_graph : Option Graph → Option String
of_graph none = none
of_graph (some g) = some (index g.attrs "fidelity")

-- edge, then node, then graph, then "compact"; a nil pointer is `none`
unfoldable pub resolve : Option Edge → Option Node → Option Graph → String
resolve e n g =
    or_next (level (of_edge e))
      (or_next (level (of_node n)) (or_next (level (of_graph g)) "compact"))

valid-or_next :
    (o : Option String) (later : String)
    → valid later ≡ true
    → valid (or_next (level o) later) ≡ true
valid-or_next none later h = h
valid-or_next (some m) later h = elim (Bool-cases (valid m)) [
  | inl b ↦ rw (b, or_next) b
  | inr b ↦ rw (b, or_next) h
]

-- Whatever the attributes hold, the resolved mode is a valid one.
pub resolve-valid :
    (e : Option Edge) (n : Option Node) (g : Option Graph) → valid (resolve e n g) ≡ true
unfolding resolve
resolve-valid e n g =
    valid-or_next (of_edge e) _
      (valid-or_next (of_node n) _ (valid-or_next (of_graph g) "compact" (unfold valid in refl)))
