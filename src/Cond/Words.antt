-- ===== src/Cond/Words.antt =====
-- cond/cond.go: where the operators stand in the text of a condition.
use dfgo.Prelude.{
  ℕ, ◌≡◌, ◌≢◌, refl, ap, String, code, Bool, true, false, not, ◌&&◌, ◌==◌, [], ◌∷◌, none, some,
  str_eq, eq_iff, arith, inl, inr, ◌⊎◌,
}
use dfgo.Prelude.Text.{append, trim_space, trim_left, trim_right, is_space}
use dfgo.Cond.{Clause, split_and, cut_eq, cut_ne}
use dfgo.Cond.Print.{print_clause, Chars, word_char, IsPlain}

abbrev pub not_space : ℕ → Bool
not_space c = not (is_space c)

abbrev pub is_not : ℕ → ℕ → Bool
is_not k c = not (c == k)

-- the characters of a clause's text
abbrev pub clause_char : ℕ → Bool
clause_char c = not (is_space c) && not (c == b'&')

pub Chars-mono :
    (p q : ℕ → Bool) → ((c : ℕ) → p c ≡ true → q c ≡ true) → (s : String) → Chars p s → Chars q s
Chars-mono p q f String.[] h = tt
Chars-mono p q f (String.◌∷◌ c s) h = (f (code c) h.0, Chars-mono p q f s h.1)

pub Chars-append : (p : ℕ → Bool) (s t : String) → Chars p s → Chars p t → Chars p (append s t)
Chars-append p String.[] t h k = k
Chars-append p (String.◌∷◌ c s) t h k = (h.0, Chars-append p s t h.1 k)

trim_left_lem : (s : String) → Chars not_space s → trim_left s ≡ s
unfolding trim_left
trim_left_lem String.[] h = refl
trim_left_lem (String.◌∷◌ c s) h = ground (arith, h.0)

trim_right_lem : (s : String) → Chars not_space s → trim_right s ≡ s
unfolding trim_right
trim_right_lem String.[] h = refl
trim_right_lem (String.◌∷◌ c s) h = rw (trim_right_lem s h.1) (ground (arith, h.0))

pub trim_space_lem : (s : String) → Chars not_space s → trim_space s ≡ s
unfolding trim_space
trim_space_lem s h = rw (trim_left_lem s h) (trim_right_lem s h)

pub split_and_one : (s : String) → Chars (is_not b'&') s → split_and s ≡ s ∷ []
unfolding split_and
split_and_one String.[] h = refl
split_and_one (String.◌∷◌ c String.[]) h = refl
split_and_one (String.◌∷◌ c (String.◌∷◌ d s)) h =
    ground (arith, h.0, split_and_one (String.◌∷◌ d s) h.1)

pub split_and-append :
    (s t : String) → Chars (is_not b'&') s → split_and (append s (append "&&" t)) ≡ s ∷ split_and t
unfolding split_and
split_and-append String.[] t h = refl
split_and-append (String.◌∷◌ c String.[]) t h = ground (arith, h.0)
split_and-append (String.◌∷◌ c (String.◌∷◌ d s)) t h =
    ground (arith, h.0, split_and-append (String.◌∷◌ d s) t h.1)

pub cut_ne-none : (s : String) → Chars (is_not b'!') s → cut_ne s ≡ none
unfolding cut_ne
cut_ne-none String.[] h = refl
cut_ne-none (String.◌∷◌ c String.[]) h = refl
cut_ne-none (String.◌∷◌ c (String.◌∷◌ d s)) h =
    ground (arith, h.0, cut_ne-none (String.◌∷◌ d s) h.1)

pub cut_ne-append :
    (s t : String) → Chars (is_not b'!') s → cut_ne (append s (append "!=" t)) ≡ some (s, t)
unfolding cut_ne
cut_ne-append String.[] t h = refl
cut_ne-append (String.◌∷◌ c String.[]) t h = ground (arith, h.0)
cut_ne-append (String.◌∷◌ c (String.◌∷◌ d s)) t h =
    ground (arith, h.0, cut_ne-append (String.◌∷◌ d s) t h.1)

pub cut_eq-none : (s : String) → Chars (is_not b'=') s → cut_eq s ≡ none
unfolding cut_eq
cut_eq-none String.[] h = refl
cut_eq-none (String.◌∷◌ c s) h = ground (arith, h.0, cut_eq-none s h.1)

pub cut_eq-append :
    (s t : String) → Chars (is_not b'=') s → cut_eq (append s (append "=" t)) ≡ some (s, t)
unfolding cut_eq
cut_eq-append String.[] t h = refl
cut_eq-append (String.◌∷◌ c s) t h = ground (arith, h.0, cut_eq-append s t h.1)

pub append-nil : (s : String) → append s "" ≡ s
append-nil String.[] = refl
append-nil (String.◌∷◌ c s) = ap (String.◌∷◌ c) (append-nil s)

pub append-ne-nil : (s t : String) → s ≢ "" → append s t ≢ ""
append-ne-nil String.[] t h = absurd (h refl)
append-ne-nil (String.◌∷◌ c s) t h = λ e. cc

pub word_is_not :
    (k c : ℕ) → (k ≡ b'&') ⊎ (k ≡ b'!') ⊎ (k ≡ b'=') → word_char c ≡ true → is_not k c ≡ true
word_is_not k c w h = ground arith

pub word_not_space : (c : ℕ) → word_char c ≡ true → not_space c ≡ true
word_not_space c h = ground arith

word_clause : (c : ℕ) → word_char c ≡ true → clause_char c ≡ true
word_clause c h = ground arith

pub false_of_ne : (s t : String) → s ≢ t → str_eq s t ≡ false
false_of_ne s t h = ground (arith, eq_iff s t)

pub Chars-print_clause : (c : Clause) → IsPlain c → Chars clause_char (print_clause c)
unfolding is_space
Chars-print_clause c h = elim h.op_val [
  | inl (o, v) ↦
      rw (o, v)
        (Chars-append clause_char c.key ""
          (Chars-mono word_char clause_char word_clause c.key h.key_chars) tt)
  | inr (o, v, _) ↦
      let key = Chars-mono word_char clause_char word_clause c.key h.key_chars in
      let val = Chars-mono word_char clause_char word_clause c.val v in
      elim o [
        | inl e ↦ rw e (Chars-append clause_char c.key (append "=" c.val) key (refl, val))
        | inr e ↦ rw e (Chars-append clause_char c.key (append "!=" c.val) key (refl, (refl, val)))
      ]
]
