-- ===== src/Dot/Parser.antt =====
-- internal/attractor/dot/parser.go: the recursive-descent parser. The graph that the methods
-- write through their pointer is part of the parser's state; the maps of default attributes are
-- values, and a statement returns what it made of them.
pub mod Monad
pub mod Declares
pub mod Built
use dfgo.Prelude.{
  ℕ, zero, suc, ◌+◌, String, Bool, true, false, not, ◌||◌, ◌==◌, if◌then◌else◌, List, [], ◌∷◌, ◌++◌,
  Option, none, some,
}
use dfgo.Prelude.Result.{Result, ok, err}
use dfgo.Prelude.Dict.{Dict, put, merge}
use dfgo.Model.Graph.{Graph, new_graph, node_by_id, add_node, add_edge}
use dfgo.Dot.Token.{
  TokenType, eof, digraph, subgraph, l_brace, r_brace, l_bracket, r_bracket, arrow, equals,
  semicolon, comma, ident, string, graph, node, edge, Token, LexError, Lexer, new_lexer, Unicode,
}
use dfgo.Prelude.Text.{chars}
use dfgo.Dot.Lexer.{next_token}
use dfgo.Dot.Parser.Monad.{
  State, ParseError, lex, expected, expected_value, expected_node, expected_attr_name,
  expected_attr_value, unexpected_token, out_of_fuel, Parse, pure, raise, peek, ◌>>=◌, ◌>>◌,
}

-- a token type's number, by which Go compares
abbrev pub type_code : TokenType → ℕ
type_code eof = 0
type_code digraph = 1
type_code subgraph = 2
type_code l_brace = 3
type_code r_brace = 4
type_code l_bracket = 5
type_code r_bracket = 6
type_code arrow = 7
type_code equals = 8
type_code semicolon = 9
type_code comma = 10
type_code ident = 11
type_code string = 12
type_code graph = 13
type_code node = 14
type_code edge = 15

abbrev pub is : TokenType → Token → Bool
is t tok = type_code tok.kind == type_code t

abbrev pub is_name : Token → Bool
is_name tok = is ident tok || is string tok

pub record Defaults : Type 0 where
  pub of_node : Dict String
  pub of_edge : Dict String

abbrev pub no_defaults : Defaults
no_defaults = record { of_node = []; of_edge = [] }

-- for k, v := range attrs { g.Attrs[k] = v }
unfoldable pub set_graph_attrs : Dict String → Parse (Unit {0})
set_graph_attrs attrs s =
    ok (tt, record s { graph = record s.graph { attrs = merge s.graph.attrs attrs } })

-- g.Attrs[id] = value
unfoldable pub set_graph_attr : String → String → Parse (Unit {0})
set_graph_attr id value s =
    ok (tt, record s { graph = record s.graph { attrs = put s.graph.attrs id value } })

-- g.AddNode with the next order
unfoldable pub declare_node : String → Dict String → Parse (Unit {0})
declare_node id attrs s = ok (
  tt,
  record s {
    graph = add_node s.graph (record { id = id; attrs = attrs; order = s.node_order });
    node_order = s.node_order + 1;
  },
)

-- `if g.NodeByID(id) == nil { … }`
unfoldable pub ensure_node : Dict String → String → Parse (Unit {0})
unfolding declare_node
ensure_node attrs id s = elim (node_by_id s.graph id) [
  | none ↦ declare_node id attrs s
  | some n ↦ ok (tt, s)
]

unfoldable pub ensure_nodes : Dict String → List String → Parse (Unit {0})
ensure_nodes attrs [] = pure tt
ensure_nodes attrs (id ∷ ids) = do ensure_node attrs id; ensure_nodes attrs ids

-- g.AddEdge with the next order
unfoldable pub declare_edge : String → String → Dict String → Parse (Unit {0})
declare_edge a b attrs s = ok (
  tt,
  record s {
    graph = add_edge s.graph (record { from = a; to = b; attrs = attrs; order = s.edge_order });
    edge_order = s.edge_order + 1;
  },
)

-- an edge for each pair of neighbours behind `a`
unfoldable pub declare_edges : Dict String → String → List String → Parse (Unit {0})
declare_edges attrs a [] = pure tt
declare_edges attrs a (b ∷ ids) = do declare_edge a b attrs; declare_edges attrs b ids

-- g := model.NewGraph(name)
unfoldable pub start_graph : String → Parse (Unit {0})
start_graph name s = ok (tt, record s { graph = new_graph name })

module _ (u : Unicode) where
  unfoldable pub advance : Parse (Unit {0})
  advance s = elim (next_token u s.lexer) [
    | err e ↦ err (lex e)
    | ok (tok, rest) ↦ ok (tt, record s { cur = tok; lexer = rest })
  ]

  unfoldable pub expect : TokenType → Parse Token
  expect t = do cur ← peek; if not (is t cur) then raise (expected t cur) else do advance; pure cur

  abbrev pub advance_if : Bool → Parse (Unit {0})
  advance_if b = if b then advance else pure tt

  -- one `key = value` of an attribute list, with the separator behind it
  unfoldable pub attr_round : Dict String → Parse (Dict String)
  attr_round attrs = do
    key ← peek
    if not (is_name key) then raise (expected_attr_name key) else do
      advance
      expect equals
      value ← peek
      if not (is_name value) then raise (expected_attr_value value) else do
        advance
        sep ← peek
        advance_if (is comma sep || is semicolon sep)
        pure (put attrs key.text value.text)

  unfoldable pub attr_loop : ℕ → Dict String → Parse (Dict String)
  attr_loop zero attrs = raise out_of_fuel
  attr_loop (suc fuel) attrs = do
    cur ← peek
    if is r_bracket cur || is eof cur
        then pure attrs
        else do attrs' ← attr_round attrs; attr_loop fuel attrs'

  unfoldable pub parse_attr_list : ℕ → Parse (Dict String)
  parse_attr_list fuel = do
    expect l_bracket
    attrs ← attr_loop fuel []
    expect r_bracket
    pure attrs

  -- `attrs`, with those of a list that follows
  unfoldable pub optional_attrs : ℕ → Dict String → Parse (Dict String)
  optional_attrs fuel attrs = do
    cur ← peek
    if is l_bracket cur then (do new ← parse_attr_list fuel; pure (merge attrs new)) else pure attrs

  -- the loop of `A -> B -> C`, behind the IDs read so far
  unfoldable pub chain_loop : ℕ → List String → Parse (List String)
  chain_loop zero ids = raise out_of_fuel
  chain_loop (suc fuel) ids = do
    cur ← peek
    if not (is arrow cur) then pure ids else do
      advance
      next ← peek
      if not (is_name next)
          then raise (expected_node next)
          else do advance; chain_loop fuel (ids ++ next.text ∷ [])

  unfoldable pub parse_edge_stmt : ℕ → String → Defaults → Parse (Unit {0})
  parse_edge_stmt fuel first d = do
    rest ← chain_loop fuel []
    attrs ← optional_attrs fuel d.of_edge
    ensure_nodes d.of_node (first ∷ rest)
    declare_edges attrs first rest

  -- at the `=` of a statement `key = value`
  unfoldable pub parse_graph_attr : String → Parse (Unit {0})
  parse_graph_attr id = do
    advance
    value ← peek
    if not (is_name value)
        then raise (expected_value value)
        else do set_graph_attr id value.text; advance

  unfoldable pub parse_node_or_edge_stmt : ℕ → Defaults → Parse (Unit {0})
  parse_node_or_edge_stmt fuel d = do
    first ← peek
    advance
    cur ← peek
    if is equals cur
        then parse_graph_attr first.text
        else if is arrow cur
        then parse_edge_stmt fuel first.text d
        else do attrs ← optional_attrs fuel d.of_node; declare_node first.text attrs

  -- the statement list that a subgraph holds, with the parent's defaults
  unfoldable pub parse_subgraph : (Defaults → Parse (Unit {0})) → Defaults → Parse (Unit {0})
  parse_subgraph stmts d = do
    expect subgraph
    cur ← peek
    advance_if (is_name cur)
    expect l_brace
    stmts d
    expect r_brace
    pure tt

  -- `parseStmt` at a token type, with the parser for the list of a subgraph; it returns the
  -- defaults for the statements that follow
  unfoldable pub stmt_at : (Defaults → Parse (Unit {0})) → ℕ → Defaults → TokenType → Parse Defaults
  stmt_at stmts fuel d graph = do
    advance
    attrs ← optional_attrs fuel []
    set_graph_attrs attrs
    pure d
  stmt_at stmts fuel d node = do
    advance
    attrs ← optional_attrs fuel d.of_node
    pure (record d { of_node = attrs })
  stmt_at stmts fuel d edge = do
    advance
    attrs ← optional_attrs fuel d.of_edge
    pure (record d { of_edge = attrs })
  stmt_at stmts fuel d subgraph = do parse_subgraph stmts d; pure d
  stmt_at stmts fuel d ident = do parse_node_or_edge_stmt fuel d; pure d
  stmt_at stmts fuel d string = do parse_node_or_edge_stmt fuel d; pure d
  stmt_at stmts fuel d _ = do cur ← peek; raise (unexpected_token cur)

  unfoldable pub parse_stmt : (Defaults → Parse (Unit {0})) → ℕ → Defaults → Parse Defaults
  parse_stmt stmts fuel d = do cur ← peek; stmt_at stmts fuel d cur.kind

  unfoldable pub skip_semicolons : ℕ → Parse (Unit {0})
  skip_semicolons zero = raise out_of_fuel
  skip_semicolons (suc fuel) = do
    cur ← peek
    if not (is semicolon cur) then pure tt else do advance; skip_semicolons fuel

  unfoldable pub parse_stmt_list : ℕ → Defaults → Parse (Unit {0})
  parse_stmt_list zero d = raise out_of_fuel
  parse_stmt_list (suc fuel) d = do
    cur ← peek
    if is r_brace cur || is eof cur then pure tt else do
      d' ← parse_stmt (parse_stmt_list fuel) fuel d
      skip_semicolons fuel
      parse_stmt_list fuel d'

  unfoldable pub parse_digraph : ℕ → Parse (Unit {0})
  parse_digraph fuel = do
    expect digraph
    cur ← peek
    advance_if (is_name cur)
    expect l_brace
    start_graph (if is_name cur then cur.text else "")
    parse_stmt_list fuel no_defaults
    expect r_brace
    pure tt

  -- Before the first token `cur` is Go's zero token, whose type is EOF.
  abbrev pub initial : String → State
  initial src = record {
    lexer = new_lexer src;
    cur = record { kind = eof; text = ""; line = 0; col = 0 };
    node_order = 0;
    edge_order = 0;
    graph = new_graph "";
  }

  -- The fuel is one more than the text has characters.
  unfoldable pub parse : String → Result ParseError Graph
  parse src = elim ((do advance; parse_digraph (suc (chars src))) (initial src)) [
    | err e ↦ err e
    | ok (_, s) ↦ ok s.graph
  ]
