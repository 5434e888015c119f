-- ===== src/Cond/Laws.antt =====
-- cond/cond.go: printed conditions and conjunctions.
use dfgo.Prelude.{
  ℕ, ◌≡◌, ◌≢◌, refl, ap, sym, ◌∙◌, String, true, ◌&&◌, [], ◌∷◌, ◌++◌, map, All, none, some, arith,
  inl, inr, ◌⊎◌,
}
use dfgo.Prelude.Result.{Result, ok}
use dfgo.Prelude.Text.{append, trim_space, trim_left, trim_right, is_space}
use dfgo.Cond.{
  CondError, Clause, Expr, split_and, cut_eq, cut_ne, parse_clause, parse_clauses, binary,
  behind_text, parse, eval, Env,
}
use dfgo.Cond.Print.{print_clause, print, Chars, word_char, IsPlain}
use dfgo.Cond.Words.{
  not_space, is_not, clause_char, Chars-mono, Chars-append, trim_space_lem, split_and_one,
  split_and-append, cut_ne-none, cut_ne-append, cut_eq-none, cut_eq-append, append-nil,
  append-ne-nil, word_is_not, word_not_space, false_of_ne, Chars-print_clause,
}

module _ (c : Clause) (h : IsPlain c) where
  plain_ne : print_clause c ≢ ""
  plain_ne = append-ne-nil c.key (append c.op c.val) h.key_ne

  key_without : (k : ℕ) → (k ≡ b'&') ⊎ (k ≡ b'!') ⊎ (k ≡ b'=') → Chars (is_not k) c.key
  key_without k w = Chars-mono word_char (is_not k) (λ d. word_is_not k d w) c.key h.key_chars

  key_trim : trim_space c.key ≡ c.key
  key_trim = trim_space_lem c.key (Chars-mono word_char not_space word_not_space c.key h.key_chars)

  val_trim : Chars word_char c.val → trim_space c.val ≡ c.val
  val_trim v = trim_space_lem c.val (Chars-mono word_char not_space word_not_space c.val v)

  binary_lem :
      (s op : String)
      → Chars word_char c.val
      → c.val ≢ ""
      → binary s op (c.key, c.val) ≡ ok (record { key = c.key; op = op; val = c.val })
  binary_lem s op v n =
      rw (key_trim, val_trim v) (rw (false_of_ne c.key "" h.key_ne, false_of_ne c.val "" n))

  behind_key : (t : String) → behind_text (some (c.key, t)) ≡ some (c.key, t)
  behind_key t = rw (false_of_ne c.key "" h.key_ne)

  shape : (op : String) → c.op ≡ op → print_clause c ≡ append c.key (append op c.val)
  shape op o = ap (λ t. append c.key (append t c.val)) o

  with_op :
      (op : String)
      → c.op ≡ op
      → ◌≡◌ {A = Result CondError Clause} (ok (record c { op = op })) (ok c)
  with_op op o = ap (λ t. ok (record c { op = t })) (sym o)

  parse_clause_bare : c.op ≡ "" → c.val ≡ "" → parse_clause (print_clause c) ≡ ok c
  unfolding parse_clause
  parse_clause_bare o v =
      let p : print_clause c ≡ c.key = shape "" o ∙ ap (append c.key) v ∙ append-nil c.key in
      let no_ne : cut_ne (print_clause c) ≡ none =
        ap cut_ne p ∙ cut_ne-none c.key (key_without b'!' (inr (inl refl))) in
      let no_eq : cut_eq (print_clause c) ≡ none =
        ap cut_eq p ∙ cut_eq-none c.key (key_without b'=' (inr (inr refl))) in
      rw (false_of_ne (print_clause c) "" plain_ne, no_ne, no_eq, parse_clause)
        (λ i. ok (record { key = p i; op = sym o i; val = sym v i }))

  parse_clause_ne :
      c.op ≡ "!=" → Chars word_char c.val → c.val ≢ "" → parse_clause (print_clause c) ≡ ok c
  unfolding parse_clause
  parse_clause_ne o v n =
      let p = shape "!=" o in
      let cut : cut_ne (print_clause c) ≡ some (c.key, c.val) =
        ap cut_ne p ∙ cut_ne-append c.key c.val (key_without b'!' (inr (inl refl))) in
      rw (false_of_ne (print_clause c) "" plain_ne, cut, behind_key c.val, parse_clause)
        (binary_lem (print_clause c) "!=" v n ∙ with_op "!=" o)

  parse_clause_eq :
      c.op ≡ "=" → Chars word_char c.val → c.val ≢ "" → parse_clause (print_clause c) ≡ ok c
  unfolding parse_clause
  parse_clause_eq o v n =
      let p = shape "=" o in
      let no_ne : cut_ne (print_clause c) ≡ none =
        ap cut_ne p
        ∙ cut_ne-none _ (
            Chars-append (is_not b'!') c.key (append "=" c.val) (key_without b'!' (inr (inl refl)))
              (
                refl,
                Chars-mono word_char (is_not b'!') (λ d. word_is_not b'!' d (inr (inl refl))) c.val
                    v,
              )) in
      let cut : cut_eq (print_clause c) ≡ some (c.key, c.val) =
        ap cut_eq p ∙ cut_eq-append c.key c.val (key_without b'=' (inr (inr refl))) in
      rw (false_of_ne (print_clause c) "" plain_ne, no_ne, cut, behind_key c.val, parse_clause)
        (binary_lem (print_clause c) "=" v n ∙ with_op "=" o)

  parse_clause-print_clause : parse_clause (print_clause c) ≡ ok c
  parse_clause-print_clause = elim h.op_val [
    | inl (o, v) ↦ parse_clause_bare o v
    | inr (inl o, v, n) ↦ parse_clause_eq o v n
    | inr (inr o, v, n) ↦ parse_clause_ne o v n
  ]

clause_is_not_and : (c : ℕ) → clause_char c ≡ true → is_not b'&' c ≡ true
clause_is_not_and c h = ground arith

clause_not_space : (c : ℕ) → clause_char c ≡ true → not_space c ≡ true
clause_not_space c h = ground arith

split_and-print :
    (c : Clause) (cs : Expr)
    → All IsPlain (c ∷ cs)
    → split_and (print (c ∷ cs)) ≡ map print_clause (c ∷ cs)
split_and-print c [] h =
    split_and_one (print_clause c)
      (Chars-mono clause_char (is_not b'&') clause_is_not_and _ (Chars-print_clause c h.0))
split_and-print c (d ∷ cs) h =
    split_and-append (print_clause c) (print (d ∷ cs))
      (Chars-mono clause_char (is_not b'&') clause_is_not_and _ (Chars-print_clause c h.0))
    ∙ ap (◌∷◌ (print_clause c)) (split_and-print d cs h.1)

parse_clauses-print : (cs : Expr) → All IsPlain cs → parse_clauses (map print_clause cs) ≡ ok cs
unfolding parse_clauses
parse_clauses-print [] h = refl
parse_clauses-print (c ∷ cs) h = rw (
  trim_space_lem (print_clause c)
      (Chars-mono clause_char not_space clause_not_space _ (Chars-print_clause c h.0)),
  parse_clause-print_clause c h.0,
  parse_clauses-print cs h.1,
)

Chars-print : (cs : Expr) → All IsPlain cs → Chars not_space (print cs)
unfolding is_space
Chars-print [] h = tt
Chars-print (c ∷ []) h =
    Chars-mono clause_char not_space clause_not_space _ (Chars-print_clause c h.0)
Chars-print (c ∷ d ∷ cs) h =
    Chars-append not_space (print_clause c) (append "&&" (print (d ∷ cs)))
      (Chars-mono clause_char not_space clause_not_space _ (Chars-print_clause c h.0))
      (refl, (refl, Chars-print (d ∷ cs) h.1))

print-ne-nil : (c : Clause) (cs : Expr) → IsPlain c → print (c ∷ cs) ≢ ""
print-ne-nil c [] h = plain_ne c h
print-ne-nil c (d ∷ cs) h =
    append-ne-nil (print_clause c) (append "&&" (print (d ∷ cs))) (plain_ne c h)

-- A condition of clauses with plain keys and values parses back to those clauses.
pub parse-print : (cs : Expr) → All IsPlain cs → parse (print cs) ≡ ok cs
unfolding parse trim_space trim_left trim_right
parse-print [] h = refl
parse-print (c ∷ cs) h =
    rw (trim_space_lem (print (c ∷ cs)) (Chars-print (c ∷ cs) h), parse)
      (rw (false_of_ne (print (c ∷ cs)) "" (print-ne-nil c cs h.0))
        (ap parse_clauses (split_and-print c cs h) ∙ parse_clauses-print (c ∷ cs) h))

-- Conjunction: a list of clauses holds exactly if its two halves do.
pub eval-append : (a b : Expr) (env : Env) → eval (a ++ b) env ≡ eval a env && eval b env
unfolding eval
eval-append [] b env = refl
eval-append (c ∷ a) b env = ground (arith, eval-append a b env)
