-- ===== src/Dot/Lexer/Laws.antt =====
-- dot/lexer.go: the moves of `NextToken` and the loop of `Tokenize`.
use dfgo.Prelude.{
  ℕ, zero, suc, ◌<◌, ◌≡◌, ◌≢◌, refl, ap, String, Bool, true, false, ◌&&◌, ◌==◌, str_eq,
  if◌then◌else◌, arith, Bool-cases, inl, inr, ◌⊎◌, Option, some, none, List, ◌∷◌,
}
use dfgo.Prelude.Result.{Result-cases, Result, ok, err, ◌>>=◌}
use dfgo.Prelude.Text.{chars}
use dfgo.Dot.Token.{
  TokenType, Token, Lexer, new_lexer, LexError, Unicode, keyword, is_digit, is_ident_start,
  is_ident_part,
}
use dfgo.Dot.Scan.{
  starts, tail, head_code, advance, is_number_part, skip_whitespace_and_comments, read_string,
  read_while,
}
use dfgo.Dot.Scan.Laws.{
  Moves, MovesIfOk, advance-Moves, advance-lt, read_while-Moves, read_while-lt, read_string-Moves,
  skip_whitespace_and_comments-Moves,
}
use dfgo.Dot.Lexer.{token_at, is_eof, scan_token, next_token, tokens_from, tokenize}

-- Where a token comes back, the lexer has moved on from `l`, past a character at least unless the
-- token is the end of the text.
abbrev pub Steps : Lexer → Result LexError (Token × Lexer) → Type 0
Steps l (ok (t, m)) = Moves l.src l.line m × ((is_eof t.kind ≡ true) ⊎ (chars m.src < chars l.src))
Steps l (err e) = Unit

-- The same where a token is there to be read: a character at least is taken.
record Passes (l : Lexer) (r : Result LexError (Token × Lexer)) : Type 0 where
  moves : MovesIfOk l.src l.line r
  takes : {t : Token} {m : Lexer} → r ≡ ok (t, m) → chars m.src < chars l.src

-- the head of a text that is not empty is the character that `starts` tests
starts_head : (s : String) → str_eq s "" ≡ false → starts (head_code s) s ≡ true
starts_head String.[] h = cc
starts_head (String.◌∷◌ c s) h = ground arith

Passes-ok :
    (l : Lexer) (t : Token) (m : Lexer)
    → Moves l.src l.line m
    → chars m.src < chars l.src
    → Passes l (ok (t, m))
Passes-ok l t m h k = record { moves = h; takes = λ {t = t'} {m = m'} e. rw (← ap chars_of e) k }
  where
    chars_of : Result LexError (Token × Lexer) → ℕ
    chars_of (ok (t, m)) = chars m.src
    chars_of (err e) = 0

Passes-err : (l : Lexer) (e : LexError) → Passes l (err e)
Passes-err l e = record { moves = tt; takes = λ p. cc }

Passes-one : (l : Lexer) (t : Token) → str_eq l.src "" ≡ false → Passes l (ok (t, advance l))
Passes-one l t h =
    Passes-ok l t (advance l) (advance-Moves l)
      (advance-lt l (head_code l.src) (starts_head l.src h))

Passes-two :
    (l : Lexer) (t : Token) → str_eq l.src "" ≡ false → Passes l (ok (t, advance (advance l)))
Passes-two l t h =
    Passes-ok l t (advance (advance l)) (omega (arith, advance-Moves l, advance-Moves (advance l)))
      (omega
        (arith, advance-Moves (advance l), advance-lt l (head_code l.src) (starts_head l.src h)))

Passes-string :
    (l : Lexer) (f : String → Token) (r : Result LexError (String × Lexer))
    → str_eq l.src "" ≡ false
    → MovesIfOk (advance l).src (advance l).line r
    → Passes l (r >>= λ (text, rest). ok (f text, rest))
Passes-string l f (ok (text, rest)) h m =
    Passes-ok l (f text) rest (omega (arith, advance-Moves l, m))
      (omega (arith, advance-lt l (head_code l.src) (starts_head l.src h), m))
Passes-string l f (err e) h m = Passes-err l e

Passes-while :
    (l : Lexer) (p : ℕ → Bool) (f : String → Token)
    → str_eq l.src "" ≡ false
    → p (head_code l.src) ≡ true
    → let (text, rest) = read_while p l.src l.line l.col in Passes l (ok (f text, rest))
Passes-while l p f h e =
    Passes-ok l _ _ (read_while-Moves p l.src l.line l.col) (read_while-lt p l.src l.line l.col e h)

ident_part : (u : Unicode) (c : ℕ) → is_ident_start u c ≡ true → is_ident_part u c ≡ true
unfolding is_ident_start is_ident_part
ident_part u c h = ground arith

Passes-if :
    {l : Lexer} (b : Bool) {x y : Result LexError (Token × Lexer)}
    → (b ≡ true → Passes l x)
    → Passes l y
    → Passes l (if b then x else y)
Passes-if true p q = p refl
Passes-if false p q = q

Steps-of_Passes :
    (l0 l : Lexer) (r : Result LexError (Token × Lexer))
    → Moves l0.src l0.line l
    → Passes l r
    → Steps l0 r
Steps-of_Passes l0 l (ok (t, m)) h p = (omega arith, inr (omega (arith, p.takes refl)))
Steps-of_Passes l0 l (err e) h p = tt

infixr 1 ◌$◌
abbrev ◌$◌ {ℓ κ} : {A : Type ℓ} {B : Type κ} → (A → B) → A → B
f $ x = f x

module _ (u : Unicode) where
  scan_token-Passes :
      (l : Lexer) (c : ℕ)
      → c ≡ head_code l.src
      → str_eq l.src "" ≡ false
      → Passes l (scan_token u l c)
  unfolding scan_token
  scan_token-Passes l c at_c h =
      Passes-if (c == b'{') (λ _. Passes-one l _ h)
      $ Passes-if (c == b'}') (λ _. Passes-one l _ h)
      $ Passes-if (c == b'[') (λ _. Passes-one l _ h)
      $ Passes-if (c == b']') (λ _. Passes-one l _ h)
      $ Passes-if (c == b'=') (λ _. Passes-one l _ h)
      $ Passes-if (c == b';') (λ _. Passes-one l _ h)
      $ Passes-if (c == b',') (λ _. Passes-one l _ h)
      $ Passes-if (c == b'-' && starts b'>' (tail l.src)) (λ _. Passes-two l _ h)
      $ Passes-if (c == b'"') (λ _.
        Passes-string l (token_at l TokenType.string)
          (read_string (advance l).src (advance l).line (advance l).col) h
          (read_string-Moves (advance l).src (advance l).line (advance l).col))
      $ Passes-if (is_ident_start u c) (λ i.
        Passes-while l (is_ident_part u) (λ id. token_at l (keyword id) id) h
          (rw (← at_c) (ident_part u c i)))
      $ Passes-if (is_digit u c) (λ d.
        Passes-while l (is_number_part u) (token_at l TokenType.ident) h
          (rw (← at_c) (ground arith)))
      $ Passes-err l _

  pub next_token-Steps : (l : Lexer) → Steps l (next_token u l)
  unfolding next_token
  next_token-Steps l0 =
      let l = skip_whitespace_and_comments l0 in
      let skipped = skip_whitespace_and_comments-Moves l0 in
      elim (Bool-cases (str_eq l.src "")) [
        | inl e ↦ rw (e, next_token) (skipped, inl refl)
        | inr e ↦ rw (e, next_token) (Steps-of_Passes l0 l _ skipped (scan_token-Passes l _ refl e))
      ]

  -- From a lexer with fewer characters left than the fuel, the loop of `Tokenize` ends.
  tokens_from-total : (fuel : ℕ) (l : Lexer) → chars l.src < fuel → tokens_from u fuel l ≢ none
  unfolding tokens_from
  tokens_from-total zero l h = elim h [ ]
  tokens_from-total (suc fuel) l h = elim (Result-cases (next_token u l)) [
    | inr (e, q) ↦ rw (q, tokens_from) (λ p. cc)
    | inl ((t, m), q) ↦
        let s : Steps l (ok (t, m)) = rw q at (next_token-Steps l) in
        elim (Bool-cases (is_eof t.kind)) [
          | inl b ↦ rw (q, b, tokens_from) (λ p. cc)
          | inr b ↦
              rw (q, b, tokens_from)
                (more t (tokens_from u fuel m) (tokens_from-total fuel m (ground (arith, s, b, h))))
        ]
  ]
    where
      more :
          (t : Token) (o : Option (Result LexError (List Token)))
          → o ≢ none
          → elim o [ none ↦ none | some r ↦ some (r >>= λ toks. ok (t ∷ toks)) ] ≢ none
      more t none h = absurd (h refl)
      more t (some r) h = λ p. cc

  -- `Tokenize` ends on every text: one round more than it has characters is enough.
  pub tokenize-total : (src : String) → tokenize u src ≢ none
  unfolding tokenize
  tokenize-total src = tokens_from-total (suc (chars src)) (new_lexer src) (omega arith)
