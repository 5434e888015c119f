-- ===== src/Tests/Lifecycle.antt =====
-- The phases of a run at concrete texts.
use dfgo.Prelude.{String, true, [], ◌∷◌, Option, some, none, ◌≡◌, refl}
use dfgo.Prelude.Result.{ok}
use dfgo.Model.Graph.{Graph as DotGraph}
use dfgo.Dot.Token
use dfgo.Dot.Scan
use dfgo.Dot.Lexer
use dfgo.Dot.Parser.Monad
use dfgo.Dot.Parser
use dfgo.Dot.Parser.Built.{parse-IsWellFormed}
use dfgo.Dot.Parser.Declares.{IsWellFormed}
use dfgo.Model.Graph
use dfgo.Style
use dfgo.Validate.Diagnostic
use dfgo.Validate.Reach
use dfgo.Validate.Rules
use dfgo.Validate.Runner
use dfgo.Cond
use dfgo.Prelude.Dict
use dfgo.Prelude.Text
use dfgo.Prelude.Sort
use dfgo.Fidelity.Mode
use dfgo.Model.Attrs
use dfgo.EdgeSelect
use dfgo.Engine.Gates
use dfgo.Engine.Node
use dfgo.Engine.Step
use dfgo.Engine.Lifecycle
use dfgo.Engine.State
use dfgo.Runtime.Context
use dfgo.Runtime.Retry
use dfgo.Engine.Lifecycle.{PrepareError, prepare, execute, initialize}
use dfgo.Engine.Lifecycle.Ready.{execute-IsExpected}
use dfgo.Engine.Lifecycle.Resume.{Resumes, initialize-checkpoint}
use dfgo.Engine.Node.{checkpoint}
use dfgo.Engine.Parts.{IsExpected}
use dfgo.Engine.State.{RunError, canceled}
use dfgo.Engine.Lifecycle.Ready.{IsReady, prepare-IsReady}
use dfgo.Tests.World.{
  ascii, still, tally, no_preamble, unregistered, two_nodes, started, node, edge,
}

abbrev text : String
text = "digraph g { s [shape=Mdiamond] e [shape=Msquare] s -> e }"

abbrev prepared : DotGraph
prepared = record {
  name = "g";
  nodes = node "s" (("shape", "Mdiamond") ∷ []) 0 ∷ node "e" (("shape", "Msquare") ∷ []) 1 ∷ [];
  edges = edge "s" "e" [] 0 ∷ [];
  attrs = [];
  nodes_by_id = ("s", 0) ∷ ("e", 1) ∷ [];
}

prepared_text : prepare ascii [] text ≡ ok prepared
unfolding Token.keyword Token.is_letter Token.is_digit Token.is_ident_start Token.is_ident_part
    Scan.skip_whitespace Scan.skip_line_comment Scan.skip_block_comment Scan.skip_round
    Scan.skip_rounds Scan.skip_whitespace_and_comments Scan.read_string Scan.read_while
    Lexer.scan_token Lexer.next_token Lexer.tokens_from Lexer.tokenize Monad.pure Monad.raise
    Monad.peek Monad.◌>>=◌ Parser.set_graph_attrs Parser.set_graph_attr Parser.declare_node
    Parser.ensure_node Parser.ensure_nodes Parser.declare_edge Parser.declare_edges
    Parser.start_graph Parser.advance Parser.expect Parser.attr_round Parser.attr_loop
    Parser.parse_attr_list Parser.optional_attrs Parser.chain_loop Parser.parse_edge_stmt
    Parser.parse_graph_attr Parser.parse_node_or_edge_stmt Parser.parse_subgraph Parser.stmt_at
    Parser.parse_stmt Parser.skip_semicolons Parser.parse_stmt_list Parser.parse_digraph
    Parser.parse Graph.merge_at Graph.add_node Graph.add_edge Graph.node_by_id Graph.out_edges
    Graph.in_edges Graph.start_node Graph.exit_nodes Graph.successors Graph.predecessors
    Style.parse_selector Style.any_class Style.matches Style.parse_property Style.parse_lines
    Style.parse_properties Style.parse_rules Style.parse_stylesheet Style.matches_from
    Style.merge_matches Style.resolve Style.fill Style.apply Diagnostic.has_errors Diagnostic.errors
    Reach.marked Reach.walk_all Reach.walk Reach.reachable_from Rules.each Rules.start_node_rule
    Rules.terminal_node_rule Rules.reachability_rule Rules.edge_target_exists_rule
    Rules.condition_syntax_rule Rules.goal_gate_retry_rule Rules.prompt_on_llm_rule
    Rules.start_no_incoming_rule Rules.exit_no_outgoing_rule Rules.stylesheet_syntax_rule
    Rules.type_known_rule Rules.fidelity_valid_rule Rules.retry_target_exists_rule
    Runner.builtin_rules Runner.run Cond.split_and Cond.cut_eq Cond.cut_ne Cond.parse_clause
    Cond.parse_clauses Cond.parse Cond.strip_prefix Cond.resolve Cond.eval_clause Cond.eval
    Cond.validate Dict.get Dict.put Dict.remove Dict.merge Dict.index Text.is_space Text.trim_left
    Text.trim_right Text.trim_space Text.digits_value Text.signed_digits Text.atoi Text.parse_bool
    Text.cut Text.split Text.digits Text.itoa Text.is_lower_of Sort.insert Sort.sort Mode.valid
    Mode.resolve Attrs.int_attr Attrs.bool_attr Attrs.string_attr Attrs.float_attr EdgeSelect.env_of
    EdgeSelect.condition_holds EdgeSelect.by_label EdgeSelect.by_suggestion
    EdgeSelect.filter_unconditional EdgeSelect.heavier EdgeSelect.by_weight EdgeSelect.select_from
    EdgeSelect.select Gates.latest_from Gates.first_unsatisfied Gates.check_goal_gates
    Gates.resolve_retry_target Gates.find_convergence Gates.continuation Node.lookup_handler
    Node.checkpoint Node.save_checkpoint Node.count_retry Node.merge_updates Node.start_stage
    Node.apply_outcome Node.execute_node Node.apply_children Node.handle_parallel_complete
    Node.handle_manager_loop_complete Step.retry_limit Step.exhausted Step.may_retry Step.exit_step
    Step.backoff Step.follow_edge Step.leave Step.settle Step.after Step.run_node Step.step
    Step.steps Lifecycle.apply_stylesheet Lifecycle.validate Lifecycle.prepare Lifecycle.known_types
    Lifecycle.fresh Lifecycle.restore Lifecycle.initialize Lifecycle.execute Lifecycle.finalize
    Lifecycle.execute_and_finalize State.counter Context.lookup Context.store Context.delete
    Context.merge_all Context.snapshot Context.clone Context.append_log Retry.policy_by_name
prepared_text = refl

prepare-IsReady_example : IsReady prepared
prepare-IsReady_example = prepare-IsReady ascii [] text prepared prepared_text

abbrev error_of : Option (Option RunError × State.State still) → RunError
error_of (some (some x, t)) = x
error_of _ = canceled

abbrev state_of : Option (Option RunError × State.State still) → State.State still
state_of (some (x, t)) = t
state_of none = started

-- no handler is registered
abbrev failed_run : Option (Option RunError × State.State still)
failed_run = execute tally no_preamble unregistered 4 prepared none started

execute-IsExpected_example : IsExpected (error_of failed_run)
unfolding Lifecycle.execute Graph.start_node Step.steps Step.step Graph.node_by_id Dict.get
    Dict.index Step.run_node Node.execute_node Node.lookup_handler Node.start_stage Context.store
    Dict.put
execute-IsExpected_example =
    execute-IsExpected tally no_preamble unregistered ascii [] text 4 prepared started
      (error_of failed_run) (state_of failed_run) prepared_text refl

-- a run that saved at its exit
abbrev interrupted : State.State still
interrupted = record started { retry_counters = ("s", 1) ∷ []; completed = ("s", true) ∷ [] }

initialize-checkpoint_example :
    Resumes two_nodes [] interrupted
      (initialize two_nodes "new" "r" [] (some (checkpoint "e" interrupted)) tt)
initialize-checkpoint_example =
    initialize-checkpoint two_nodes "new" "r" "e" [] interrupted tt (λ e. cc)

parsed_text : Parser.parse ascii text ≡ ok prepared
unfolding Token.keyword Token.is_letter Token.is_digit Token.is_ident_start Token.is_ident_part
    Scan.skip_whitespace Scan.skip_line_comment Scan.skip_block_comment Scan.skip_round
    Scan.skip_rounds Scan.skip_whitespace_and_comments Scan.read_string Scan.read_while
    Lexer.scan_token Lexer.next_token Lexer.tokens_from Lexer.tokenize Monad.pure Monad.raise
    Monad.peek Monad.◌>>=◌ Parser.set_graph_attrs Parser.set_graph_attr Parser.declare_node
    Parser.ensure_node Parser.ensure_nodes Parser.declare_edge Parser.declare_edges
    Parser.start_graph Parser.advance Parser.expect Parser.attr_round Parser.attr_loop
    Parser.parse_attr_list Parser.optional_attrs Parser.chain_loop Parser.parse_edge_stmt
    Parser.parse_graph_attr Parser.parse_node_or_edge_stmt Parser.parse_subgraph Parser.stmt_at
    Parser.parse_stmt Parser.skip_semicolons Parser.parse_stmt_list Parser.parse_digraph
    Parser.parse Graph.merge_at Graph.add_node Graph.add_edge Graph.node_by_id Graph.out_edges
    Graph.in_edges Graph.start_node Graph.exit_nodes Graph.successors Graph.predecessors
    Style.parse_selector Style.any_class Style.matches Style.parse_property Style.parse_lines
    Style.parse_properties Style.parse_rules Style.parse_stylesheet Style.matches_from
    Style.merge_matches Style.resolve Style.fill Style.apply Diagnostic.has_errors Diagnostic.errors
    Reach.marked Reach.walk_all Reach.walk Reach.reachable_from Rules.each Rules.start_node_rule
    Rules.terminal_node_rule Rules.reachability_rule Rules.edge_target_exists_rule
    Rules.condition_syntax_rule Rules.goal_gate_retry_rule Rules.prompt_on_llm_rule
    Rules.start_no_incoming_rule Rules.exit_no_outgoing_rule Rules.stylesheet_syntax_rule
    Rules.type_known_rule Rules.fidelity_valid_rule Rules.retry_target_exists_rule
    Runner.builtin_rules Runner.run Cond.split_and Cond.cut_eq Cond.cut_ne Cond.parse_clause
    Cond.parse_clauses Cond.parse Cond.strip_prefix Cond.resolve Cond.eval_clause Cond.eval
    Cond.validate Dict.get Dict.put Dict.remove Dict.merge Dict.index Text.is_space Text.trim_left
    Text.trim_right Text.trim_space Text.digits_value Text.signed_digits Text.atoi Text.parse_bool
    Text.cut Text.split Text.digits Text.itoa Text.is_lower_of Sort.insert Sort.sort Mode.valid
    Mode.resolve Attrs.int_attr Attrs.bool_attr Attrs.string_attr Attrs.float_attr EdgeSelect.env_of
    EdgeSelect.condition_holds EdgeSelect.by_label EdgeSelect.by_suggestion
    EdgeSelect.filter_unconditional EdgeSelect.heavier EdgeSelect.by_weight EdgeSelect.select_from
    EdgeSelect.select Gates.latest_from Gates.first_unsatisfied Gates.check_goal_gates
    Gates.resolve_retry_target Gates.find_convergence Gates.continuation Node.lookup_handler
    Node.checkpoint Node.save_checkpoint Node.count_retry Node.merge_updates Node.start_stage
    Node.apply_outcome Node.execute_node Node.apply_children Node.handle_parallel_complete
    Node.handle_manager_loop_complete Step.retry_limit Step.exhausted Step.may_retry Step.exit_step
    Step.backoff Step.follow_edge Step.leave Step.settle Step.after Step.run_node Step.step
    Step.steps Lifecycle.apply_stylesheet Lifecycle.validate Lifecycle.prepare Lifecycle.known_types
    Lifecycle.fresh Lifecycle.restore Lifecycle.initialize Lifecycle.execute Lifecycle.finalize
    Lifecycle.execute_and_finalize State.counter Context.lookup Context.store Context.delete
    Context.merge_all Context.snapshot Context.clone Context.append_log Retry.policy_by_name
parsed_text = refl

parse-IsWellFormed_example : IsWellFormed prepared
parse-IsWellFormed_example = parse-IsWellFormed ascii text prepared parsed_text
