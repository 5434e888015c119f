-- ===== src/Validate/Runner.antt =====
-- internal/attractor/validate: `BuiltinRules` and `Run`.
use dfgo.Prelude.{String, List, [], ◌∷◌, ◌++◌}
use dfgo.Model.Graph.{Graph}
use dfgo.Validate.Diagnostic.{Diagnostic}
use dfgo.Validate.Rules.{
  start_node_rule, start_no_incoming_rule, terminal_node_rule, exit_no_outgoing_rule,
  reachability_rule, edge_target_exists_rule, condition_syntax_rule, goal_gate_retry_rule,
  prompt_on_llm_rule, stylesheet_syntax_rule, fidelity_valid_rule, retry_target_exists_rule,
  type_known_rule,
}

abbrev pub Rule : Type 0
Rule = Graph → List Diagnostic

-- the rule on types is there only if some type is known
abbrev pub with_types : List String → List Rule
with_types [] = []
with_types (t ∷ ts) = type_known_rule (t ∷ ts) ∷ []

unfoldable pub builtin_rules : List String → List Rule
builtin_rules known =
    (start_node_rule ∷ start_no_incoming_rule ∷ terminal_node_rule ∷ exit_no_outgoing_rule
      ∷ reachability_rule ∷ edge_target_exists_rule ∷ condition_syntax_rule ∷ goal_gate_retry_rule
      ∷ prompt_on_llm_rule ∷ stylesheet_syntax_rule ∷ fidelity_valid_rule ∷ retry_target_exists_rule
      ∷ [])
    ++ with_types known

unfoldable pub run : List Rule → Graph → List Diagnostic
run [] g = []
run (r ∷ rs) g = r g ++ run rs g
