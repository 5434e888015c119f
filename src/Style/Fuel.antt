-- ===== src/Style/Fuel.antt =====
-- internal/attractor/style/stylesheet.go: the loop of `ParseStylesheet` and its fuel.
use dfgo.Prelude.{
  Char, ℕ, zero, suc, ◌≤◌, ◌<◌, String, code, ◌&&◌, ◌==◌, Option, some, none, str_eq, ◌≢◌,
  Bool-cases, inl, inr, Option-cases, arith,
}
use dfgo.Prelude.Result.{err}
use dfgo.Prelude.Text.{chars, cut, cut_behind, trim_space, trim_left, trim_right, is_space}
use dfgo.Style.{Stylesheet, out_of_fuel, parse_rules, parse_stylesheet}

-- what stands behind the character is shorter
abbrev Shorter : String → Option (String × String) → Type 0
Shorter s none = Unit
Shorter s (some (a, b)) = chars b < chars s

cut_behind-Shorter :
    (c : Char) (s : String) (o : Option (String × String))
    → Shorter s o
    → Shorter (String.◌∷◌ c s) (cut_behind c o)
cut_behind-Shorter c s none h = tt
cut_behind-Shorter c s (some (a, b)) h = omega arith

cut-Shorter : (k : ℕ) (s : String) → Shorter s (cut k s)
unfolding cut
cut-Shorter k String.[] = tt
cut-Shorter k (String.◌∷◌ c s) = elim (Bool-cases (code c == k)) [
  | inl e ↦ rw (e, cut) (omega arith)
  | inr e ↦ rw (e, cut) (cut_behind-Shorter c s (cut k s) (cut-Shorter k s))
]

chars-trim_left : (s : String) → chars (trim_left s) ≤ chars s
unfolding trim_left
chars-trim_left String.[] = omega arith
chars-trim_left (String.◌∷◌ c s) = ground (arith, chars-trim_left s)

chars-trim_right : (s : String) → chars (trim_right s) ≤ chars s
unfolding trim_right
chars-trim_right String.[] = omega arith
chars-trim_right (String.◌∷◌ c s) =
    let rest = chars-trim_right s in
    elim (Bool-cases (str_eq (trim_right s) "" && is_space (code c))) [
      | inl b ↦ rw (b, trim_right) (omega arith)
      | inr b ↦ rw (b, trim_right) (omega arith)
    ]

chars-trim_space : (s : String) → chars (trim_space s) ≤ chars s
unfolding trim_space
chars-trim_space s = ground (arith, chars-trim_left s, chars-trim_right (trim_left s))

parse_rules-total :
    (fuel : ℕ) (ss : Stylesheet) (src : String)
    → chars src < fuel
    → parse_rules fuel ss src ≢ err out_of_fuel
unfolding parse_rules
parse_rules-total zero ss src h = absurd (omega arith)
parse_rules-total (suc fuel) ss src h = elim (Bool-cases (str_eq src "")) [
  | inl a ↦ rw (a, parse_rules) (λ p. cc)
  | inr a ↦ elim (Option-cases (cut b'{' src)) [
    | inl c ↦ elim (Bool-cases (str_eq (trim_space src) "")) [
      | inl b ↦ rw (a, c, b, parse_rules) (λ p. cc)
      | inr b ↦ rw (a, c, b, parse_rules) (λ p. cc)
    ]
    | inr ((sel, rest), c) ↦ elim (Bool-cases (str_eq (trim_space sel) "")) [
      | inl b ↦ rw (a, c, b, parse_rules) (λ p. cc)
      | inr b ↦ elim (Option-cases (cut b'}' rest)) [
        | inl d ↦ rw (a, c, b, d, parse_rules) (λ p. cc)
        | inr ((body, after), d) ↦
            let first : chars rest < chars src = rw c at (cut-Shorter b'{' src) in
            let second : chars after < chars rest = rw d at (cut-Shorter b'}' rest) in
            rw (a, c, b, d, parse_rules)
              (parse_rules-total fuel _ (trim_space after)
                (ground (arith, first, second, h, chars-trim_space after)))
      ]
    ]
  ]
]

-- `ParseStylesheet` ends on every text, with rules or one of its own errors: its loop does not run
-- out of the fuel that it is given.
pub parse_stylesheet-total : (src : String) → parse_stylesheet src ≢ err out_of_fuel
unfolding parse_stylesheet
parse_stylesheet-total src =
    parse_rules-total (suc (chars (trim_space src))) _ (trim_space src) (omega arith)
