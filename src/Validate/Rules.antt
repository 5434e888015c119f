-- ===== src/Validate/Rules.antt =====
-- internal/attractor/validate/rules.go: the rules.
pub mod Errors
use dfgo.Prelude.{
  ℕ, zero, suc, String, Bool, true, false, not, ◌&&◌, ◌||◌, if◌then◌else◌, List, [], ◌∷◌, ◌++◌,
  Option, some, none, str_eq, keep, length,
}
use dfgo.Prelude.Result.{ok, err}
use dfgo.Prelude.Dict.{Dict, get, index}
use dfgo.Model.Graph.{
  Node, Edge, Graph, has_shape, node_by_id, out_edges, in_edges, start_node, exit_nodes,
}
use dfgo.Model.Attrs.{bool_attr}
use dfgo.Cond
use dfgo.Style.{parse_stylesheet}
use dfgo.Fidelity.Mode.{valid}
use dfgo.Validate.Diagnostic.{
  Diagnostic, error, warning, finding, node_finding, no_start, no_terminal, no_max_retries,
  no_prompt, unreachable, multiple_starts, incoming, outgoing, no_edge_source, no_edge_target,
  invalid_condition, invalid_stylesheet, unknown_type, invalid_mode, missing_target,
}
use dfgo.Validate.Reach.{marked, reachable_from}

-- for _, x := range xs { diags = append(diags, …) }
module _ {ℓ} {A : Type ℓ} where
  unfoldable pub each : (A → List Diagnostic) → List A → List Diagnostic
  each f [] = []
  each f (x ∷ xs) = f x ++ each f xs

abbrev pub when : Bool → Diagnostic → List Diagnostic
when b d = if b then d ∷ [] else []

abbrev pub count_starts : List Node → List Diagnostic
count_starts [] = finding "start_node" error no_start ∷ []
count_starts (n ∷ []) = []
count_starts (n ∷ m ∷ ns) = finding "start_node" error (multiple_starts (length (n ∷ m ∷ ns))) ∷ []

unfoldable pub start_node_rule : Graph → List Diagnostic
start_node_rule g = count_starts (keep (has_shape "Mdiamond") g.nodes)

abbrev pub count_exits : List Node → List Diagnostic
count_exits [] = finding "terminal_node" error no_terminal ∷ []
count_exits (n ∷ ns) = []

unfoldable pub terminal_node_rule : Graph → List Diagnostic
terminal_node_rule g = count_exits (exit_nodes g)

abbrev pub reach_finding : List String → Node → List Diagnostic
reach_finding reached n =
    when (not (marked reached n.id)) (node_finding "reachability" error n.id unreachable)

unfoldable pub reachability_rule : Graph → List Diagnostic
reachability_rule g = elim (start_node g) [
  | none ↦ []
  | some start ↦ each (reach_finding (reachable_from g start.id)) g.nodes
]

abbrev pub missing : Graph → String → Bool
missing g id = elim (node_by_id g id) [ none ↦ true | some n ↦ false ]

abbrev pub edge_finding : Graph → Edge → List Diagnostic
edge_finding g e =
    when (missing g e.from) (finding "edge_target_exists" error (no_edge_source e.from))
    ++ when (missing g e.to) (finding "edge_target_exists" error (no_edge_target e.to))

unfoldable pub edge_target_exists_rule : Graph → List Diagnostic
edge_target_exists_rule g = each (edge_finding g) g.edges

abbrev pub condition_finding : Edge → List Diagnostic
condition_finding e =
    let text = index e.attrs "condition" in
    if str_eq text "" then [] else elim (Cond.validate text) [
      | none ↦ []
      | some x ↦ finding "condition_syntax" error (invalid_condition e.from e.to x) ∷ []
    ]

unfoldable pub condition_syntax_rule : Graph → List Diagnostic
condition_syntax_rule g = each condition_finding g.edges

abbrev pub lacks : Node → String → Bool
lacks n key = elim (get n.attrs key) [ none ↦ true | some v ↦ false ]

abbrev pub gate_finding : Node → List Diagnostic
gate_finding n =
    when (bool_attr n.attrs "goal_gate" false && lacks n "max_retries")
      (node_finding "goal_gate_has_retry" warning n.id no_max_retries)

unfoldable pub goal_gate_retry_rule : Graph → List Diagnostic
goal_gate_retry_rule g = each gate_finding g.nodes

abbrev pub prompt_finding : Node → List Diagnostic
prompt_finding n =
    when (str_eq (index n.attrs "type") "codergen" && lacks n "prompt")
      (node_finding "prompt_on_llm_nodes" warning n.id no_prompt)

unfoldable pub prompt_on_llm_rule : Graph → List Diagnostic
prompt_on_llm_rule g = each prompt_finding g.nodes

abbrev pub count_edges : List Edge → Diagnostic → List Diagnostic
count_edges [] d = []
count_edges (e ∷ es) d = d ∷ []

unfoldable pub start_no_incoming_rule : Graph → List Diagnostic
start_no_incoming_rule g = elim (start_node g) [
  | none ↦ []
  | some start ↦
      count_edges (in_edges g start.id)
        (node_finding "start_no_incoming" error start.id (incoming (length (in_edges g start.id))))
]

abbrev pub exit_finding : Graph → Node → List Diagnostic
exit_finding g n =
    count_edges (out_edges g n.id)
      (node_finding "exit_no_outgoing" error n.id (outgoing (length (out_edges g n.id))))

unfoldable pub exit_no_outgoing_rule : Graph → List Diagnostic
exit_no_outgoing_rule g = each (exit_finding g) (exit_nodes g)

unfoldable pub stylesheet_syntax_rule : Graph → List Diagnostic
stylesheet_syntax_rule g =
    let src = index g.attrs "model_stylesheet" in
    if str_eq src "" then [] else elim (parse_stylesheet src) [
      | ok ss ↦ []
      | err x ↦ finding "stylesheet_syntax" error (invalid_stylesheet x) ∷ []
    ]

abbrev pub type_finding : List String → Node → List Diagnostic
type_finding known n =
    let t = index n.attrs "type" in
    when (not (str_eq t "") && not (marked known t))
      (node_finding "type_known" warning n.id (unknown_type t))

unfoldable pub type_known_rule : List String → Graph → List Diagnostic
type_known_rule known g = each (type_finding known) g.nodes

abbrev pub bad_mode : Option String → (String → Diagnostic) → List Diagnostic
bad_mode none d = []
bad_mode (some v) d = when (not (valid v)) (d v)

abbrev pub mode_finding : String → Dict String → List Diagnostic
mode_finding id attrs =
    bad_mode (get attrs "fidelity") (λ v. node_finding "fidelity_valid" warning id (invalid_mode v))

unfoldable pub fidelity_valid_rule : Graph → List Diagnostic
fidelity_valid_rule g =
    mode_finding "" g.attrs
    ++ (each (λ (n : Node). mode_finding n.id n.attrs) g.nodes
        ++ each (λ (e : Edge). mode_finding "" e.attrs) g.edges)

abbrev pub target_finding : Graph → Node → String → List Diagnostic
target_finding g n attr = elim (get n.attrs attr) [
  | none ↦ []
  | some target ↦
      when (not (str_eq target "") && missing g target)
        (node_finding "retry_target_exists" warning n.id (missing_target attr target))
]

abbrev pub targets_finding : Graph → Node → List Diagnostic
targets_finding g n =
    target_finding g n "retry_target" ++ target_finding g n "fallback_retry_target"

unfoldable pub retry_target_exists_rule : Graph → List Diagnostic
retry_target_exists_rule g = each (targets_finding g) g.nodes
