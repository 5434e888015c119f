-- ===== src/Cond/Print.antt =====
-- The texts of conditions: how a list of clauses is written.
use dfgo.Prelude.{ℕ, ◌≡◌, ◌≢◌, String, code, Bool, true, not, ◌&&◌, ◌==◌, [], ◌∷◌, ◌⊎◌}
use dfgo.Prelude.Text.{is_space, append}
use dfgo.Cond.{Clause, Expr}

abbrev pub print_clause : Clause → String
print_clause c = append c.key (append c.op c.val)

abbrev pub print : Expr → String
print [] = ""
print (c ∷ []) = print_clause c
print (c ∷ d ∷ cs) = append (print_clause c) (append "&&" (print (d ∷ cs)))

-- Every character passes a test.
abbrev pub Chars : (ℕ → Bool) → String → Type 0
Chars p String.[] = Unit
Chars p (String.◌∷◌ c s) = (p (code c) ≡ true) × Chars p s

-- no white space, and none of the characters that operators are made of
abbrev pub word_char : ℕ → Bool
word_char c = not (is_space c) && not (c == b'&') && not (c == b'!') && not (c == b'=')

-- A clause as `Parse` returns it, with its key and value free of white space and operators.
pub record IsPlain (c : Clause) : Type 0 where
  pub key_chars : Chars word_char c.key
  pub key_ne : c.key ≢ ""
  pub op_val :
      ((c.op ≡ "") × (c.val ≡ ""))
      ⊎ (((c.op ≡ "=") ⊎ (c.op ≡ "!=")) × Chars word_char c.val × (c.val ≢ ""))
