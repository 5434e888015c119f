-- ===== src/Cond.antt =====
-- internal/attractor/cond/cond.go: the conditions on edges, their parser and their evaluator.
pub mod Print
pub mod Words
pub mod Laws
use Prim.Native.String.{◌++◌ as str_append}
use dfgo.Prelude.{
  String, Char, code, Bool, true, false, not, ◌&&◌, ◌||◌, ◌==◌, if◌then◌else◌, List, [], ◌∷◌,
  Option, none, some, str_eq,
}
use dfgo.Prelude.Result.{Result, ok, err, ◌>>=◌}
use dfgo.Prelude.Dict.{Dict, index}
use dfgo.Prelude.Text.{trim_space}

pub record Env : Type 0 where
  pub outcome : String
  pub preferred_label : String
  pub context : Dict String

pub record Clause : Type 0 where
  pub key : String
  pub op : String
  pub val : String

-- an `Expr` is its clauses
abbrev pub Expr : Type 0
Expr = List Clause

pub data CondError : Type 0 where
  empty_clause : CondError
  invalid_clause : String → CondError

abbrev prepend : Char → List String → List String
prepend c [] = String.◌∷◌ c String.[] ∷ []
prepend c (p ∷ ps) = String.◌∷◌ c p ∷ ps

-- The parts between the `&&`; `cur` of the loop is the head of the list.
unfoldable pub split_and : String → List String
split_and String.[] = "" ∷ []
split_and (String.◌∷◌ c String.[]) = String.◌∷◌ c String.[] ∷ []
split_and (String.◌∷◌ c (String.◌∷◌ d s)) =
    let skipped = "" ∷ split_and s in
    let kept = prepend c (split_and (String.◌∷◌ d s)) in
    if code c == b'&' && code d == b'&' then skipped else kept

abbrev pub before_char : Char → Option (String × String) → Option (String × String)
before_char c none = none
before_char c (some (a, b)) = some (String.◌∷◌ c a, b)

-- strings.Index(s, "="), with the text before it and behind it
unfoldable pub cut_eq : String → Option (String × String)
cut_eq String.[] = none
cut_eq (String.◌∷◌ c s) =
    let later = before_char c (cut_eq s) in if code c == b'=' then some ("", s) else later

-- strings.Index(s, "!="), with the text before it and behind it
unfoldable pub cut_ne : String → Option (String × String)
cut_ne String.[] = none
cut_ne (String.◌∷◌ c String.[]) = none
cut_ne (String.◌∷◌ c (String.◌∷◌ d s)) =
    let later = before_char c (cut_ne (String.◌∷◌ d s)) in
    if code c == b'!' && code d == b'=' then some ("", s) else later

-- The test `idx > 0`: the operator is there, behind at least one character.
abbrev pub behind_text : Option (String × String) → Option (String × String)
behind_text none = none
behind_text (some (a, b)) = if str_eq a "" then none else some (a, b)

-- the clause with an operator, from what stands on its two sides
abbrev pub binary : String → String → String × String → Result CondError Clause
binary s op (a, b) =
    let key = trim_space a in
    let val = trim_space b in
    if str_eq key "" || str_eq val ""
    then err (invalid_clause s)
    else ok (record { key = key; op = op; val = val })

unfoldable pub parse_clause : String → Result CondError Clause
parse_clause s = if str_eq s "" then err empty_clause else elim (behind_text (cut_ne s)) [
  | some sides ↦ binary s "!=" sides
  | none ↦ elim (behind_text (cut_eq s)) [
    | some sides ↦ binary s "=" sides
    | none ↦ ok (record { key = s; op = ""; val = "" })
  ]
]

unfoldable pub parse_clauses : List String → Result CondError Expr
parse_clauses [] = ok []
parse_clauses (p ∷ ps) = parse_clause (trim_space p) >>= λ c. parse_clauses ps >>= λ cs. ok (c ∷ cs)

unfoldable pub parse : String → Result CondError Expr
parse s0 = let s = trim_space s0 in if str_eq s "" then ok [] else parse_clauses (split_and s)

-- strings.HasPrefix(key, prefix), with the text behind it
unfoldable pub strip_prefix : String → String → Option String
strip_prefix String.[] s = some s
strip_prefix (String.◌∷◌ p ps) String.[] = none
strip_prefix (String.◌∷◌ p ps) (String.◌∷◌ c s) =
    let rest = strip_prefix ps s in if code p == code c then rest else none

unfoldable pub resolve : String → Env → String
resolve key env =
    if str_eq key "outcome"
    then env.outcome
    else if str_eq key "preferred_label"
    then env.preferred_label
    else elim (strip_prefix "context." key) [
      | some ctx_key ↦ index env.context ctx_key
      | none ↦ index env.context key
    ]

unfoldable pub eval_clause : Clause → Env → Bool
eval_clause c env =
    let actual = resolve c.key env in
    if str_eq c.op "="
    then str_eq actual c.val
    else if str_eq c.op "!="
    then not (str_eq actual c.val)
    else if str_eq c.op ""
    then not (str_eq actual "")
    else false

-- the loop of `Eval`, which begins with `true` on no clause
unfoldable pub eval : Expr → Env → Bool
eval [] env = true
eval (c ∷ cs) env = let rest = eval cs env in if not (eval_clause c env) then false else rest

unfoldable pub validate : String → Option CondError
validate s = elim (parse s) [ ok e ↦ none | err x ↦ some x ]
