-- ===== src/Dot/Scan/Laws.antt =====
-- dot/lexer.go: where the scanning loops move to, and the line counter.
use dfgo.Prelude.{
  ℕ, zero, suc, ◌+◌, ◌≤◌, ◌<◌, ◌≡◌, refl, String, code, Bool, true, false, ◌==◌, if◌then◌else◌,
  arith, str_eq, eq_refl, Bool-cases, inl, inr,
}
use dfgo.Prelude.Result.{Result, ok, err, ◌>>=◌}
use dfgo.Prelude.Text.{chars}
use dfgo.Dot.Token.{Lexer, LexError}
use dfgo.Dot.Scan.{
  starts, head_code, next_line, next_col, advance, advance_over, skip_whitespace, skip_line_comment,
  skip_block_comment, slashes, skip_round, skip_rounds, skip_whitespace_and_comments, read_string,
  read_while,
}

abbrev pub newlines : String → ℕ
newlines String.[] = 0
newlines (String.◌∷◌ c s) = (if code c == b'\n' then 1 else 0) + newlines s

-- `l` stands at or behind the place where `s` begins on line `line`, and its line is the one
-- that the newlines in between give.
abbrev pub Moves : String → ℕ → Lexer → Type 0
Moves s line l = (chars l.src ≤ chars s) × (l.line + newlines l.src ≡ line + newlines s)

advance_over-Moves : (s : String) (line col : ℕ) → Moves s line (advance_over s line col)
advance_over-Moves String.[] line col = omega arith
advance_over-Moves (String.◌∷◌ c s) line col = ground arith

pub advance-lt : (l : Lexer) (k : ℕ) → starts k l.src ≡ true → chars (advance l).src < chars l.src
advance-lt l k = go l.src l.line l.col
  where
    go :
        (s : String) (line col : ℕ)
        → starts k s ≡ true
        → chars (advance_over s line col).src < chars s
    go String.[] line col h = cc
    go (String.◌∷◌ c s) line col h = omega arith

pub skip_whitespace-Moves : (s : String) (line col : ℕ) → Moves s line (skip_whitespace s line col)
unfolding skip_whitespace
skip_whitespace-Moves String.[] line col = omega arith
skip_whitespace-Moves (String.◌∷◌ c s) line col =
    ground (arith, skip_whitespace-Moves s (next_line (code c) line) (next_col (code c) col))

pub skip_line_comment-Moves :
    (s : String) (line col : ℕ) → Moves s line (skip_line_comment s line col)
unfolding skip_line_comment
skip_line_comment-Moves String.[] line col = omega arith
skip_line_comment-Moves (String.◌∷◌ c s) line col =
    ground (arith, skip_line_comment-Moves s (next_line (code c) line) (next_col (code c) col))

pub skip_block_comment-Moves :
    (s : String) (line col : ℕ) → Moves s line (skip_block_comment s line col)
unfolding skip_block_comment
skip_block_comment-Moves String.[] line col = omega arith
skip_block_comment-Moves (String.◌∷◌ c s) line col = ground (
  arith,
  skip_block_comment-Moves s (next_line (code c) line) (next_col (code c) col),
  advance_over-Moves s (next_line (code c) line) (next_col (code c) col),
)

pub read_while-Moves :
    (p : ℕ → Bool) (s : String) (line col : ℕ) → Moves s line (read_while p s line col).1
unfolding read_while
read_while-Moves p String.[] line col = omega arith
read_while-Moves p (String.◌∷◌ c s) line col =
    ground (arith, read_while-Moves p s (next_line (code c) line) (next_col (code c) col))

pub advance-Moves : (l : Lexer) → Moves l.src l.line (advance l)
advance-Moves l = advance_over-Moves l.src l.line l.col

skip_line_comment-lt :
    (s : String) (line col k : ℕ)
    → starts k s ≡ true
    → (k == b'\n') ≡ false
    → chars (skip_line_comment s line col).src < chars s
unfolding skip_line_comment
skip_line_comment-lt String.[] line col k h n = cc
skip_line_comment-lt (String.◌∷◌ c s) line col k h n =
    ground (arith, skip_line_comment-Moves s (next_line (code c) line) (next_col (code c) col))

starts_of_slashes : (k : ℕ) (s : String) → slashes k s ≡ true → starts b'/' s ≡ true
starts_of_slashes k s h = ground arith

-- From `s` on `line` the lexer has moved to `l`, past a character at least.
abbrev Passes : String → ℕ → Lexer → Type 0
Passes s line l = Moves s line l × (chars l.src < chars s)

past_slashes :
    (m : Lexer) (k : ℕ) → slashes k m.src ≡ true → Passes m.src m.line (advance (advance m))
past_slashes m k h = omega (
  arith,
  advance-Moves m,
  advance-Moves (advance m),
  advance-lt m b'/' (starts_of_slashes k m.src h),
)

-- A round of the loop moves on; one after which the loop goes on has taken a character.
skip_round-Moves :
    (l : Lexer)
    → Moves l.src l.line (skip_round l).1
      × ((skip_round l).0 ≡ true → chars (skip_round l).1.src < chars l.src)
unfolding skip_round
skip_round-Moves l =
    let m = skip_whitespace l.src l.line l.col in
    let past = advance (advance m) in
    let white = skip_whitespace-Moves l.src l.line l.col in
    elim (Bool-cases (slashes b'/' m.src)) [
      | inl a ↦
          rw (a, skip_round)
            (
              omega (
                arith,
                white,
                past_slashes m b'/' a,
                skip_line_comment-Moves past.src past.line past.col,
              ),
              λ _. omega (
                arith,
                white,
                past_slashes m b'/' a,
                skip_line_comment-Moves past.src past.line past.col,
              ),
            )
      | inr a ↦ elim (Bool-cases (slashes b'*' m.src)) [
        | inl b ↦
            rw (a, b, skip_round)
              (
                omega (
                  arith,
                  white,
                  past_slashes m b'*' b,
                  skip_block_comment-Moves past.src past.line past.col,
                ),
                λ _. omega (
                  arith,
                  white,
                  past_slashes m b'*' b,
                  skip_block_comment-Moves past.src past.line past.col,
                ),
              )
        | inr b ↦ elim (Bool-cases (starts b'#' m.src)) [
          | inl c ↦
              rw (a, b, c, skip_round)
                (
                  omega (arith, white, skip_line_comment-Moves m.src m.line m.col),
                  λ _. omega (arith, white, skip_line_comment-lt m.src m.line m.col b'#' c refl),
                )
          | inr c ↦ rw (a, b, c, skip_round) (white, λ e. cc)
        ]
      ]
    ]

skip_rounds-Moves : (fuel : ℕ) (l : Lexer) → Moves l.src l.line (skip_rounds fuel l)
unfolding skip_rounds
skip_rounds-Moves zero l = omega arith
skip_rounds-Moves (suc fuel) l =
    ground (arith, skip_round-Moves l, skip_rounds-Moves fuel (skip_round l).1)

pub skip_whitespace_and_comments-Moves :
    (l : Lexer) → Moves l.src l.line (skip_whitespace_and_comments l)
unfolding skip_whitespace_and_comments
skip_whitespace_and_comments-Moves l = skip_rounds-Moves (suc (chars l.src)) l

-- A lexer at which the loop of `skipWhitespaceAndComments` ends at once: at its end, or at a
-- character that is no white space and begins no comment.
abbrev pub IsClean : Lexer → Type 0
IsClean l = (r : Lexer) × (skip_round r ≡ (false, l))

skip_rounds-IsClean : (fuel : ℕ) (l : Lexer) → chars l.src < fuel → IsClean (skip_rounds fuel l)
unfolding skip_rounds
skip_rounds-IsClean zero l h = elim h [ ]
skip_rounds-IsClean (suc fuel) l h = elim (Bool-cases (skip_round l).0) [
  | inl b ↦
      rw (b, skip_rounds)
        (skip_rounds-IsClean fuel (skip_round l).1 (omega (arith, (skip_round-Moves l).1 b)))
  | inr b ↦ rw (b, skip_rounds) (l, ground (arith))
]

-- `Moves` of the lexer that a reader returns, if it returns one.
abbrev pub MovesIfOk {ℓ} : {A : Type ℓ} → String → ℕ → Result LexError (A × Lexer) → Type 0
MovesIfOk s line (ok (a, l)) = Moves s line l
MovesIfOk s line (err e) = Unit

MovesIfOk-map :
    (s t : String) (line line' : ℕ) (f : String → String) (r : Result LexError (String × Lexer))
    → MovesIfOk t line' r
    → chars t ≤ chars s
    → line' + newlines t ≡ line + newlines s
    → MovesIfOk s line (r >>= λ (text, l). ok (f text, l))
MovesIfOk-map s t line line' f (ok (a, l)) h le e = omega arith
MovesIfOk-map s t line line' f (err e) h le q = tt

pub read_string-Moves : (s : String) (line col : ℕ) → MovesIfOk s line (read_string s line col)
unfolding read_string
read_string-Moves String.[] line col = tt
read_string-Moves (String.◌∷◌ c String.[]) line col = elim (Bool-cases (code c == b'"')) [
  | inl q ↦ rw q (ground arith)
  | inr q ↦ rw q tt
]
read_string-Moves (String.◌∷◌ c (String.◌∷◌ d s)) line col =
    let line' : ℕ = next_line (code c) line in
    let col' : ℕ = next_col (code c) col in
    let escaped = read_string-Moves s (next_line (code d) line') (next_col (code d) col') in
    let plain = read_string-Moves (String.◌∷◌ d s) line' col' in
    elim (Bool-cases (code c == b'\\')) [
      | inl b ↦ rw b (
          MovesIfOk-map (String.◌∷◌ c (String.◌∷◌ d s)) s line _ _ (read_string s _ _) escaped
            (omega arith) (ground arith))
      | inr b ↦ elim (Bool-cases (code c == b'"')) [
        | inl q ↦ rw (b, q) (ground arith)
        | inr q ↦
            rw (b, q)
              (MovesIfOk-map (String.◌∷◌ c (String.◌∷◌ d s)) (String.◌∷◌ d s) line _ _
                (read_string (String.◌∷◌ d s) _ _) plain (omega arith) (ground arith))
      ]
    ]

pub read_while-lt :
    (p : ℕ → Bool) (s : String) (line col : ℕ)
    → p (head_code s) ≡ true
    → str_eq s "" ≡ false
    → chars (read_while p s line col).1.src < chars s
unfolding read_while
read_while-lt p String.[] line col h n = cc (eq_refl "")
read_while-lt p (String.◌∷◌ c s) line col h n =
    rw h (omega (arith, read_while-Moves p s (next_line (code c) line) (next_col (code c) col)))
