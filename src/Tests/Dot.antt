-- ===== src/Tests/Dot.antt =====
-- The DOT reader at concrete texts.
use dfgo.Prelude.{false, Option, some, ◌≡◌, refl, List, [], ◌∷◌, map}
use dfgo.Prelude.Result.{Result, ok}
use dfgo.Dot.Scan.{
  skip_whitespace_and_comments, skip_rounds, skip_round, skip_whitespace, skip_line_comment,
  skip_block_comment, read_string, read_while,
}
use dfgo.Prelude.Text.{is_space}
use dfgo.Dot.Token.{
  is_ident_start, keyword, is_ident_part, LexError, Unicode, Token, TokenType, digraph, ident,
  l_brace, arrow, string, equals, eof, l_bracket,
}
use dfgo.Dot.Lexer.{tokenize, tokens_from, scan_token, next_token}

abbrev ascii : Unicode
ascii = record { letter = λ _. false; digit = λ _. false }

abbrev kinds : Option (Result LexError (List Token)) → List TokenType
kinds (some (ok ts)) = map (λ t. t.kind) ts
kinds _ = []

tokens_of_edge :
    kinds (tokenize ascii "digraph a { // x\n A -> B_1 /* y */ [l=\"q\\\"\" # z")
    ≡ digraph ∷ ident ∷ l_brace ∷ ident ∷ arrow ∷ ident ∷ l_bracket ∷ ident ∷ equals ∷ string ∷ eof
      ∷ []
unfolding tokenize tokens_from next_token scan_token skip_whitespace_and_comments skip_rounds
    skip_round skip_whitespace skip_line_comment skip_block_comment read_string read_while is_space
    is_ident_start keyword is_ident_part
tokens_of_edge = refl
