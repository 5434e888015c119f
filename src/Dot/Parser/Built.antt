-- ===== src/Dot/Parser/Built.antt =====
-- dot/parser.go: the graph that the parse functions build.
use dfgo.Prelude.{ℕ, zero, suc, ◌≡◌, String, List, inl, inr}
use mathlib.Core.Path.{subst}
use dfgo.Prelude.Dict.{Dict}
use dfgo.Prelude.Result.{Result, ok, err, Result-cases}
use dfgo.Model.Graph.{Graph}
use dfgo.Model.Graph.Index.{new_graph-IsIndexed}
use dfgo.Dot.Token.{TokenType, graph, node, edge, subgraph, ident, string, Unicode}
use dfgo.Dot.Lexer.{next_token}
use dfgo.Dot.Parser.Monad.{peek, State, Parse, ParseError, ◌>>=◌}
use dfgo.Dot.Parser.Monad.Keeps.{
  Keeps-bind, Keeps-peek, Keeps-if, Keeps-pure, Keeps, keeps_rules, Ends,
}
use dfgo.Dot.Parser.{
  Defaults, advance, expect, attr_round, attr_loop, parse_attr_list, optional_attrs, chain_loop,
  parse_edge_stmt, parse_graph_attr, parse_node_or_edge_stmt, parse_subgraph, stmt_at, parse_stmt,
  skip_semicolons, parse_stmt_list, parse_digraph, parse, initial,
}
use dfgo.Prelude.Text.{chars}
use dfgo.Dot.Parser.Declares.{
  IsWellFormed, IsBuilt, ok_injective, ensure_and_declare, declare_node-IsBuilt,
  set_graph_attrs-IsBuilt, set_graph_attr-IsBuilt, start_graph-IsBuilt,
}

ruleset built_rules = (
  keeps_rules, ensure_and_declare, declare_node-IsBuilt, set_graph_attrs-IsBuilt,
  set_graph_attr-IsBuilt, start_graph-IsBuilt,
)

module _ (u : Unicode) where
  advance-IsBuilt : Keeps IsBuilt (advance u)
  unfolding advance
  advance-IsBuilt = record {
    at = λ s h. elim (Result-cases (next_token u s.lexer)) [
      | inl (r, e) ↦ rw (e, advance) (record { formed = h.formed; below = h.below })
      | inr (x, e) ↦ rw (e, advance) tt
    ];
  }

  expect-IsBuilt : (t : TokenType) → Keeps IsBuilt (expect u t)
  unfolding expect
  expect-IsBuilt t = search (built_rules, advance-IsBuilt)

  attr_round-IsBuilt : (attrs : Dict String) → Keeps IsBuilt (attr_round u attrs)
  unfolding attr_round
  attr_round-IsBuilt attrs = search (built_rules, advance-IsBuilt, expect-IsBuilt) depth 20

  attr_loop-IsBuilt : (fuel : ℕ) (attrs : Dict String) → Keeps IsBuilt (attr_loop u fuel attrs)
  unfolding attr_loop
  attr_loop-IsBuilt zero attrs = search built_rules
  attr_loop-IsBuilt (suc fuel) attrs =
      search (built_rules, attr_round-IsBuilt, attr_loop-IsBuilt fuel)

  optional_attrs-IsBuilt :
      (fuel : ℕ) (attrs : Dict String) → Keeps IsBuilt (optional_attrs u fuel attrs)
  unfolding optional_attrs parse_attr_list
  optional_attrs-IsBuilt fuel attrs =
      search (built_rules, expect-IsBuilt, attr_loop-IsBuilt) depth 12

  chain_loop-IsBuilt : (fuel : ℕ) (ids : List String) → Keeps IsBuilt (chain_loop u fuel ids)
  unfolding chain_loop
  chain_loop-IsBuilt zero ids = search built_rules
  chain_loop-IsBuilt (suc fuel) ids =
      search (built_rules, advance-IsBuilt, chain_loop-IsBuilt fuel) depth 12

  parse_edge_stmt-IsBuilt :
      (fuel : ℕ) (id : String) (d : Defaults) → Keeps IsBuilt (parse_edge_stmt u fuel id d)
  unfolding parse_edge_stmt
  parse_edge_stmt-IsBuilt fuel id d =
      search (built_rules, chain_loop-IsBuilt, optional_attrs-IsBuilt) depth 12

  parse_graph_attr-IsBuilt : (id : String) → Keeps IsBuilt (parse_graph_attr u id)
  unfolding parse_graph_attr
  parse_graph_attr-IsBuilt id = search (built_rules, advance-IsBuilt) depth 12

  parse_node_or_edge_stmt-IsBuilt :
      (fuel : ℕ) (d : Defaults) → Keeps IsBuilt (parse_node_or_edge_stmt u fuel d)
  unfolding parse_node_or_edge_stmt
  parse_node_or_edge_stmt-IsBuilt fuel d =
      search
        (
          built_rules, advance-IsBuilt, optional_attrs-IsBuilt, parse_edge_stmt-IsBuilt,
          parse_graph_attr-IsBuilt,
        )
        depth 12

  parse_subgraph-IsBuilt :
      (stmts : Defaults → Parse (Unit {0}))
      → ((d : Defaults) → Keeps IsBuilt (stmts d))
      → (d : Defaults) → Keeps IsBuilt (parse_subgraph u stmts d)
  unfolding parse_subgraph
  parse_subgraph-IsBuilt stmts h d =
      search (built_rules, advance-IsBuilt, expect-IsBuilt, h) depth 14

  stmt_at-IsBuilt :
      (stmts : Defaults → Parse (Unit {0}))
      → ((d : Defaults) → Keeps IsBuilt (stmts d))
      → (fuel : ℕ) (d : Defaults) (t : TokenType) → Keeps IsBuilt (stmt_at u stmts fuel d t)
  unfolding stmt_at
  stmt_at-IsBuilt stmts h fuel d subgraph = search (built_rules, parse_subgraph-IsBuilt stmts h)
  stmt_at-IsBuilt stmts h fuel d ident = search (built_rules, parse_node_or_edge_stmt-IsBuilt)
  stmt_at-IsBuilt stmts h fuel d string = search (built_rules, parse_node_or_edge_stmt-IsBuilt)
  stmt_at-IsBuilt stmts h fuel d graph =
      search (built_rules, advance-IsBuilt, optional_attrs-IsBuilt)
  stmt_at-IsBuilt stmts h fuel d node =
      search (built_rules, advance-IsBuilt, optional_attrs-IsBuilt)
  stmt_at-IsBuilt stmts h fuel d edge =
      search (built_rules, advance-IsBuilt, optional_attrs-IsBuilt)
  stmt_at-IsBuilt stmts h fuel d _ = search built_rules

  parse_stmt-IsBuilt :
      (stmts : Defaults → Parse (Unit {0}))
      → ((d : Defaults) → Keeps IsBuilt (stmts d))
      → (fuel : ℕ) (d : Defaults) → Keeps IsBuilt (parse_stmt u stmts fuel d)
  unfolding parse_stmt
  parse_stmt-IsBuilt stmts h fuel d = search (built_rules, stmt_at-IsBuilt stmts h)

  skip_semicolons-IsBuilt : (fuel : ℕ) → Keeps IsBuilt (skip_semicolons u fuel)
  unfolding skip_semicolons
  skip_semicolons-IsBuilt zero = search built_rules
  skip_semicolons-IsBuilt (suc fuel) = Keeps-bind peek _ Keeps-peek λ cur.
      Keeps-if _ _ _ (Keeps-pure tt)
        (Keeps-bind (advance u) _ advance-IsBuilt (λ _. skip_semicolons-IsBuilt fuel))

  parse_stmt_list-IsBuilt : (fuel : ℕ) (d : Defaults) → Keeps IsBuilt (parse_stmt_list u fuel d)
  unfolding parse_stmt_list
  parse_stmt_list-IsBuilt zero d = search built_rules
  parse_stmt_list-IsBuilt (suc fuel) d =
      let rest = parse_stmt_list-IsBuilt fuel in
      search
        (
          built_rules,
          parse_stmt-IsBuilt (parse_stmt_list u fuel) rest,
          skip_semicolons-IsBuilt,
          rest,
        )
        depth 12

  parse_digraph-IsBuilt : (fuel : ℕ) → Keeps IsBuilt (parse_digraph u fuel)
  unfolding parse_digraph
  parse_digraph-IsBuilt fuel =
      search (built_rules, advance-IsBuilt, expect-IsBuilt, parse_stmt_list-IsBuilt) depth 16

  -- A graph that `Parse` returns has its node index in step with its nodes, its edges in
  -- declaration order with no order twice, and every edge joins two of its nodes.
  pub parse-IsWellFormed : (src : String) (g : Graph) → parse u src ≡ ok g → IsWellFormed g
  unfolding parse
  parse-IsWellFormed src g e = finish (run (initial u src)) (parsed.at (initial u src) start) e
    where
      run : Parse (Unit {0})
      run = advance u >>= λ _. parse_digraph u (suc (chars src))

      parsed : Keeps IsBuilt run
      parsed = search (built_rules, advance-IsBuilt, parse_digraph-IsBuilt)

      start : IsBuilt (initial u src)
      start = record {
        formed = record { indexed = new_graph-IsIndexed ""; ordered = tt; joined = tt };
        below = tt;
      }

      finish :
          (r : Result ParseError (Unit {0} × State))
          → Ends (λ _. IsBuilt) r
          → elim r as (λ _. Result ParseError Graph) [ err x ↦ err x | ok (_, s) ↦ ok s.graph ]
            ≡ ok g
          → IsWellFormed g
      finish (ok (_, s)) b p = subst IsWellFormed (ok_injective p) b.formed
      finish (err x) b p = cc
