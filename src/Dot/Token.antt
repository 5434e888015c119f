-- ===== src/Dot/Token.antt =====
-- internal/attractor/dot/lexer.go: tokens, keywords and the lexer's state.
use dfgo.Prelude.{ℕ, String, Bool, some, none, ◌||◌, ◌&&◌, ltb, leb, ◌==◌, if◌then◌else◌}
use dfgo.Prelude.{[], ◌∷◌}
use dfgo.Prelude.Dict.{Dict, get}

pub data TokenType : Type 0 where
  eof digraph subgraph l_brace r_brace l_bracket r_bracket arrow : TokenType
  equals semicolon comma ident string graph node edge : TokenType

pub record Token : Type 0 where
  pub kind : TokenType
  pub text : String
  pub line : ℕ
  pub col : ℕ

-- The text from `pos` on stands for `src` and `pos`.
pub record Lexer : Type 0 where
  pub src : String
  pub line : ℕ
  pub col : ℕ

abbrev pub new_lexer : String → Lexer
new_lexer src = record { src = src; line = 1; col = 1 }

pub data LexError : Type 0 where
  unterminated_string : ℕ → LexError
  unexpected_character : ℕ → ℕ → ℕ → LexError

abbrev keywords : Dict TokenType
keywords =
    ("digraph", digraph)
    ∷ ("subgraph", subgraph)
    ∷ ("graph", graph)
    ∷ ("node", node)
    ∷ ("edge", edge)
    ∷ []

-- if tt, ok := keywords[id]; ok
unfoldable pub keyword : String → TokenType
unfolding get
keyword id = elim (get keywords id) [ some tt ↦ tt | none ↦ ident ]

-- The tables of Go's `unicode` package beyond ASCII; within ASCII they are written out below.
pub record Unicode : Type 0 where
  pub letter : ℕ → Bool
  pub digit : ℕ → Bool

-- unicode.IsLetter
unfoldable pub is_letter : Unicode → ℕ → Bool
is_letter u c =
    if ltb c 128 then (leb b'a' c && leb c b'z') || (leb b'A' c && leb c b'Z') else u.letter c

-- unicode.IsDigit
unfoldable pub is_digit : Unicode → ℕ → Bool
is_digit u c = if ltb c 128 then leb b'0' c && leb c b'9' else u.digit c

unfoldable pub is_ident_start : Unicode → ℕ → Bool
unfolding is_letter
is_ident_start u c = c == b'_' || is_letter u c

unfoldable pub is_ident_part : Unicode → ℕ → Bool
unfolding is_letter is_digit
is_ident_part u c = c == b'_' || c == b'.' || is_letter u c || is_digit u c
