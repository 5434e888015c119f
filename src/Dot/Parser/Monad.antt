-- ===== src/Dot/Parser/Monad.antt =====
-- The methods of `Parser` in internal/attractor/dot/parser.go: actions that change the state and
-- may return an error.
pub mod Keeps
use dfgo.Prelude.{ℕ}
use dfgo.Prelude.Result.{Result, ok, err}
use dfgo.Model.Graph.{Graph}
use dfgo.Dot.Token.{TokenType, Token, LexError, Lexer}

-- `Parser`, with the graph under construction.
pub record State : Type 0 where
  pub lexer : Lexer
  pub cur : Token
  pub node_order : ℕ
  pub edge_order : ℕ
  pub graph : Graph

-- The errors, with the token at which they are found; the model has `out_of_fuel` besides.
pub data ParseError : Type 0 where
  lex : LexError → ParseError
  expected : TokenType → Token → ParseError
  expected_value expected_node expected_attr_name : Token → ParseError
  expected_attr_value unexpected_token : Token → ParseError
  out_of_fuel : ParseError

abbrev pub Parse : Type 0 → Type 0
Parse A = State → Result ParseError (A × State)

module _ {A : Type 0} where
  unfoldable pub pure : A → Parse A
  pure a s = ok (a, s)

  unfoldable pub raise : ParseError → Parse A
  raise e s = err e

unfoldable pub peek : Parse Token
peek s = ok (s.cur, s)

module _ {A B : Type 0} where
  abbrev continue : Result ParseError (A × State) → (A → Parse B) → Result ParseError (B × State)
  continue (ok (a, s)) f = f a s
  continue (err e) f = err e

  infixl 5 ◌>>=◌ ◌>>◌
  unfoldable pub ◌>>=◌ : Parse A → (A → Parse B) → Parse B
  unfolding pure raise peek
  ◌>>=◌ m f s = continue (m s) f

  abbrev pub ◌>>◌ : Parse A → Parse B → Parse B
  m >> n = m >>= λ _. n
