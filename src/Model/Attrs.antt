-- ===== src/Model/Attrs.antt =====
-- internal/attractor/model/graph.go: the typed reads of attributes. `Graph`, `Node` and `Edge`
-- read their own `Attrs` by the same code. A float is a parameter.
use dfgo.Prelude.{String, Bool, Option, none, some}
use dfgo.Prelude.Dict.{Dict, get}
use dfgo.Prelude.Text.{ℤ, atoi, parse_bool}

-- `or_default (parse v) def` on a key that is there, `def` on one that is not.
abbrev pub typed_attr {ℓ} : {A : Type ℓ} → (String → Option A) → Dict String → String → A → A
typed_attr parse attrs key def = elim (get attrs key) [
  | none ↦ def
  | some v ↦ elim (parse v) [ none ↦ def | some x ↦ x ]
]

unfoldable pub int_attr : Dict String → String → ℤ → ℤ
int_attr attrs key def = typed_attr atoi attrs key def

unfoldable pub bool_attr : Dict String → String → Bool → Bool
bool_attr attrs key def = typed_attr parse_bool attrs key def

unfoldable pub string_attr : Dict String → String → String → String
string_attr attrs key def = elim (get attrs key) [ none ↦ def | some v ↦ v ]

-- float64 with strconv.ParseFloat, `0`, `!=` and `>`.
pub record Floats : Type 1 where
  pub Float : Type 0
  pub zero_float : Float
  pub parse_float : String → Option Float
  pub ne : Float → Float → Bool
  pub gt : Float → Float → Bool

module _ (fl : Floats) where
  open fl use {Float, parse_float}

  unfoldable pub float_attr : Dict String → String → Float → Float
  float_attr attrs key def = typed_attr parse_float attrs key def
