-- ===== src/Dot/Lexer.antt =====
-- internal/attractor/dot/lexer.go: `NextToken` and `Tokenize`.
pub mod Laws
use dfgo.Prelude.{
  ℕ, zero, suc, ◌+◌, String, Char, code, Bool, true, false, ◌&&◌, ◌||◌, not, ◌==◌, if◌then◌else◌,
  Option, some, none, List, [], ◌∷◌, str_eq,
}
use dfgo.Prelude.Result.{Result, ok, err, ◌>>=◌}
use dfgo.Prelude.Text.{chars}
use dfgo.Dot.Token.{
  TokenType, eof, l_brace, r_brace, l_bracket, r_bracket, arrow, equals, semicolon, comma, ident,
  string, Token, Lexer, new_lexer, LexError, unexpected_character, keyword, Unicode, is_digit,
  is_ident_start,
}
use dfgo.Dot.Scan.{
  starts, tail, head_code, advance, skip_whitespace_and_comments, read_string, read_while,
  read_ident, is_number_part,
}

-- the token that `NextToken` returns at the place where `l` stands
abbrev pub token_at : Lexer → TokenType → String → Token
token_at l kind text = record { kind = kind; text = text; line = l.line; col = l.col }

abbrev one : Lexer → TokenType → String → Result LexError (Token × Lexer)
one l kind text = ok (token_at l kind text, advance l)

abbrev pub is_eof : TokenType → Bool
is_eof eof = true
is_eof _ = false

module _ (u : Unicode) where
  -- the `switch`, past white space and comments, at a character `c`
  unfoldable pub scan_token : Lexer → ℕ → Result LexError (Token × Lexer)
  scan_token l c =
      if c == b'{'
      then one l l_brace "{"
      else if c == b'}'
      then one l r_brace "}"
      else if c == b'['
      then one l l_bracket "["
      else if c == b']'
      then one l r_bracket "]"
      else if c == b'='
      then one l equals "="
      else if c == b';'
      then one l semicolon ";"
      else if c == b','
      then one l comma ","
      else if c == b'-' && starts b'>' (tail l.src)
      then ok (token_at l arrow "->", advance (advance l))
      else if c == b'"'
      then (let m = advance l in
          read_string m.src m.line m.col >>= λ (text, rest). ok (token_at l string text, rest))
      else if is_ident_start u c
      then (let (id, rest) = read_ident u l in ok (token_at l (keyword id) id, rest))
      else if is_digit u c
      then (let (text, rest) = read_while (is_number_part u) l.src l.line l.col in
          ok (token_at l ident text, rest))
      else err (unexpected_character c l.line l.col)

  unfoldable pub next_token : Lexer → Result LexError (Token × Lexer)
  next_token l0 =
      let l = skip_whitespace_and_comments l0 in
      if str_eq l.src "" then ok (token_at l eof "", l) else scan_token l (head_code l.src)

  -- The loop of `Tokenize`; `none` means that the fuel ran out.
  unfoldable pub tokens_from : ℕ → Lexer → Option (Result LexError (List Token))
  tokens_from zero l = none
  tokens_from (suc fuel) l = elim (next_token l) [
    | err e ↦ some (err e)
    | ok (tok, rest) ↦ elim (is_eof tok.kind) [
      | true ↦ some (ok (tok ∷ []))
      | false ↦ elim (tokens_from fuel rest) [
        | none ↦ none
        | some r ↦ some (r >>= λ toks. ok (tok ∷ toks))
      ]
    ]
  ]

  unfoldable pub tokenize : String → Option (Result LexError (List Token))
  tokenize src = tokens_from (suc (chars src)) (new_lexer src)
