-- ===== src/Dot/Scan.antt =====
-- internal/attractor/dot/lexer.go: the loops that walk the text. Each takes the text from `pos`
-- on with the line and column that stand there.
pub mod Laws
use dfgo.Prelude.{
  ℕ, zero, suc, ◌+◌, String, Char, code, Bool, true, false, ◌&&◌, ◌||◌, not, ◌==◌, if◌then◌else◌,
}
use dfgo.Prelude.Result.{Result, ok, err, ◌>>=◌}
use dfgo.Prelude.Text.{is_space, chars}
use dfgo.Dot.Token.{Lexer, LexError, unterminated_string, Unicode, is_digit, is_ident_part}

abbrev pub starts : ℕ → String → Bool
starts k String.[] = false
starts k (String.◌∷◌ c s) = code c == k

abbrev pub tail : String → String
tail String.[] = String.[]
tail (String.◌∷◌ c s) = s

abbrev pub head_code : String → ℕ
head_code String.[] = 0
head_code (String.◌∷◌ c s) = code c

abbrev pub at : String → ℕ → ℕ → Lexer
at s line col = record { src = s; line = line; col = col }

abbrev pub next_line : ℕ → ℕ → ℕ
next_line c line = if c == b'\n' then line + 1 else line

abbrev pub next_col : ℕ → ℕ → ℕ
next_col c col = if c == b'\n' then 1 else col + 1

-- `advance`; past the end nothing moves
abbrev pub advance_over : String → ℕ → ℕ → Lexer
advance_over String.[] line col = at String.[] line col
advance_over (String.◌∷◌ c s) line col = at s (next_line (code c) line) (next_col (code c) col)

abbrev pub advance : Lexer → Lexer
advance l = advance_over l.src l.line l.col

unfoldable pub skip_whitespace : String → ℕ → ℕ → Lexer
skip_whitespace String.[] line col = at String.[] line col
skip_whitespace (String.◌∷◌ c s) line col =
    let rest = skip_whitespace s (next_line (code c) line) (next_col (code c) col) in
    if is_space (code c) then rest else at (String.◌∷◌ c s) line col

unfoldable pub skip_line_comment : String → ℕ → ℕ → Lexer
skip_line_comment String.[] line col = at String.[] line col
skip_line_comment (String.◌∷◌ c s) line col =
    let rest = skip_line_comment s (next_line (code c) line) (next_col (code c) col) in
    if code c == b'\n' then at (String.◌∷◌ c s) line col else rest

-- Already past "/*". A `*` that ends the text closes nothing, and is consumed as the rest.
unfoldable pub skip_block_comment : String → ℕ → ℕ → Lexer
skip_block_comment String.[] line col = at String.[] line col
skip_block_comment (String.◌∷◌ c s) line col =
    let rest = skip_block_comment s (next_line (code c) line) (next_col (code c) col) in
    if code c == b'*' && starts b'/' s
    then advance (advance_over (String.◌∷◌ c s) line col)
    else rest

abbrev pub slashes : ℕ → String → Bool
slashes k s = starts b'/' s && starts k (tail s)

-- One round of the loop: `none` is its `break`.
unfoldable pub skip_round : Lexer → Bool × Lexer
skip_round l =
    let m = skip_whitespace l.src l.line l.col in
    let past = advance (advance m) in
    if slashes b'/' m.src
    then (true, skip_line_comment past.src past.line past.col)
    else if slashes b'*' m.src
    then (true, skip_block_comment past.src past.line past.col)
    else if starts b'#' m.src
    then (true, skip_line_comment m.src m.line m.col)
    else (false, m)

-- The loop of `skipWhitespaceAndComments`; every further round takes a character at least.
unfoldable pub skip_rounds : ℕ → Lexer → Lexer
skip_rounds zero l = l
skip_rounds (suc fuel) l =
    let (more, m) = skip_round l in elim more [ true ↦ skip_rounds fuel m | false ↦ m ]

unfoldable pub skip_whitespace_and_comments : Lexer → Lexer
skip_whitespace_and_comments l = skip_rounds (suc (chars l.src)) l

-- What an escape stands for: one character, or a backslash and the character.
abbrev pub unescape : Char → String → String
unescape c rest =
    if code c == b'n'
    then String.◌∷◌ newline rest
    else if code c == b't'
    then String.◌∷◌ tab rest
    else if code c == b'"'
    then String.◌∷◌ c rest
    else if code c == b'\\'
    then String.◌∷◌ c rest
    else String.◌∷◌ backslash (String.◌∷◌ c rest)
  where
    newline : Char
    newline = "\n"

    tab : Char
    tab = "\t"

    backslash : Char
    backslash = "\\"

-- Already past the opening quote.
unfoldable pub read_string : String → ℕ → ℕ → Result LexError (String × Lexer)
read_string String.[] line col = err (unterminated_string line)
read_string (String.◌∷◌ c String.[]) line col =
    if code c == b'"'
    then ok ("", at String.[] (next_line (code c) line) (next_col (code c) col))
    else err (unterminated_string (next_line (code c) line))
read_string (String.◌∷◌ c (String.◌∷◌ d s)) line col =
    let line' = next_line (code c) line in
    let col' = next_col (code c) col in
    let escaped = read_string s (next_line (code d) line') (next_col (code d) col') >>= λ (text, l).
    ok (unescape d text, l) in
    let plain =
      read_string (String.◌∷◌ d s) line' col' >>= λ (text, l). ok (String.◌∷◌ c text, l) in
    if code c == b'\\'
    then escaped
    else if code c == b'"'
    then ok ("", at (String.◌∷◌ d s) line' col')
    else plain

-- The longest prefix whose characters pass a test: `readIdent`, and the loop on digits.
unfoldable pub read_while : (ℕ → Bool) → String → ℕ → ℕ → String × Lexer
read_while p String.[] line col = ("", at String.[] line col)
read_while p (String.◌∷◌ c s) line col =
    let (text, l) = read_while p s (next_line (code c) line) (next_col (code c) col) in
    if p (code c) then (String.◌∷◌ c text, l) else ("", at (String.◌∷◌ c s) line col)

abbrev pub read_ident : Unicode → Lexer → String × Lexer
read_ident u l = read_while (is_ident_part u) l.src l.line l.col

abbrev pub is_number_part : Unicode → ℕ → Bool
is_number_part u c = is_digit u c || c == b'.'
