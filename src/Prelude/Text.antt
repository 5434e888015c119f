-- ===== src/Prelude/Text.antt =====
-- What the program uses of Go's `strings`, `strconv` and `unicode`. A text is a native `String`,
-- walked by its characters: the program's texts are valid UTF-8 and its separators are ASCII.
use Prim.Native.Nat.{ℕ, zero, ◌/◌, ◌%◌, ◌+◌, ◌*◌, ◌-◌, ◌^◌, suc}
use Prim.Native.Char.{Char, code}
use Prim.Native.String.{String}
use mathlib.Core.Path.{◌≡◌, refl, ap}
use mathlib.Core.Bool.{Bool, true, false, ◌&&◌, ◌||◌}
use mathlib.Core.List.{List, [], ◌∷◌}
use mathlib.Core.Option.{Option, none, some}
use text.Mathlib.Text.{◌==◌ as str_eq}
use dfgo.Prelude.Tests.{ltb, leb, ◌==◌, if◌then◌else◌}

-- `negsuc n` is -(n + 1).
pub data ℤ : Type 0 where
  pos : ℕ → ℤ
  negsuc : ℕ → ℤ

-- n < z, for a counter n
abbrev pub lt_int : ℕ → ℤ → Bool
lt_int n (pos m) = ltb n m
lt_int n (negsuc m) = false

-- unicode.IsSpace
unfoldable pub is_space : ℕ → Bool
is_space c =
    (leb 9 c && leb c 13)
    || c == 32
    || c == 0x85
    || c == 0xA0
    || c == 0x1680
    || (leb 0x2000 c && leb c 0x200a)
    || c == 0x2028
    || c == 0x2029
    || c == 0x202f
    || c == 0x205f
    || c == 0x3000

-- strings.TrimLeft(s, white space)
unfoldable pub trim_left : String → String
unfolding is_space
trim_left String.[] = String.[]
trim_left (String.◌∷◌ c s) = if is_space (code c) then trim_left s else String.◌∷◌ c s

-- strings.TrimRight(s, white space)
unfoldable pub trim_right : String → String
unfolding is_space
trim_right String.[] = String.[]
trim_right (String.◌∷◌ c s) =
    let rest = trim_right s in
    if str_eq rest "" && is_space (code c) then String.[] else String.◌∷◌ c rest

-- strings.TrimSpace
unfoldable pub trim_space : String → String
unfolding trim_left trim_right
trim_space s = trim_right (trim_left s)

-- the decimal digits of strconv.Atoi
unfoldable pub digits_value : ℕ → String → Option ℕ
digits_value n String.[] = some n
digits_value n (String.◌∷◌ c s) =
    let rest = digits_value (n * 10 + (code c - 48)) s in
    if leb 48 (code c) && leb (code c) 57 then rest else none

abbrev in_range : Bool → ℕ → Option ℤ
in_range false n = if ltb n (2 ^ 63) then some (ℤ.pos n) else none
in_range true n =
    if leb n (2 ^ 63) then (if n == 0 then some (ℤ.pos 0) else some (ℤ.negsuc (n - 1))) else none

-- at least one digit, then the range of an int64
unfoldable pub signed_digits : Bool → String → Option ℤ
unfolding digits_value
signed_digits neg String.[] = none
signed_digits neg (String.◌∷◌ c s) = elim (digits_value 0 (String.◌∷◌ c s)) [
  | none ↦ none
  | some n ↦ in_range neg n
]

-- strconv.Atoi
unfoldable pub atoi : String → Option ℤ
unfolding signed_digits
atoi String.[] = none
atoi (String.◌∷◌ c s) =
    if code c == b'-'
    then signed_digits true s
    else if code c == b'+'
    then signed_digits false s
    else signed_digits false (String.◌∷◌ c s)

-- strconv.ParseBool
unfoldable pub parse_bool : String → Option Bool
parse_bool s =
    if str_eq s "1"
      || str_eq s "t"
      || str_eq s "T"
      || str_eq s "TRUE"
      || str_eq s "true"
      || str_eq s "True"
    then some true
    else if str_eq s "0"
        || str_eq s "f"
        || str_eq s "F"
        || str_eq s "FALSE"
        || str_eq s "false"
        || str_eq s "False"
    then some false
    else none

abbrev pub cut_behind : Char → Option (String × String) → Option (String × String)
cut_behind c none = none
cut_behind c (some (a, b)) = some (String.◌∷◌ c a, b)

-- The text before the first character `k`, and the text behind it.
unfoldable pub cut : ℕ → String → Option (String × String)
cut k String.[] = none
cut k (String.◌∷◌ c s) =
    let later = cut_behind c (cut k s) in if code c == k then some ("", s) else later

abbrev prepend : Char → List String → List String
prepend c [] = String.◌∷◌ c String.[] ∷ []
prepend c (p ∷ ps) = String.◌∷◌ c p ∷ ps

-- strings.Split by one ASCII character
unfoldable pub split : ℕ → String → List String
split k String.[] = "" ∷ []
split k (String.◌∷◌ c s) = let rest = split k s in if code c == k then "" ∷ rest else prepend c rest

abbrev pub chars : String → ℕ
chars String.[] = 0
chars (String.◌∷◌ c s) = suc (chars s)

-- s followed by t, by characters
abbrev pub append : String → String → String
append String.[] t = t
append (String.◌∷◌ c s) t = String.◌∷◌ c (append s t)

pub append_empty : (s : String) → append s "" ≡ s
append_empty String.[] = refl
append_empty (String.◌∷◌ c s) = ap (String.◌∷◌ c) (append_empty s)

pub append_assoc : (s t u : String) → append (append s t) u ≡ append s (append t u)
append_assoc String.[] t u = refl
append_assoc (String.◌∷◌ c s) t u = ap (String.◌∷◌ c) (append_assoc s t u)

abbrev digit : ℕ → String
digit n =
    if n == 0
    then "0"
    else if n == 1
    then "1"
    else if n == 2
    then "2"
    else if n == 3
    then "3"
    else if n == 4
    then "4"
    else if n == 5
    then "5"
    else if n == 6
    then "6"
    else if n == 7
    then "7"
    else if n == 8
    then "8"
    else "9"

-- A number below 10 ^ fuel has at most `fuel` digits.
unfoldable pub digits : ℕ → ℕ → String
digits zero n = ""
digits (suc fuel) n =
    let before = digits fuel (n / 10) in
    if ltb n 10 then digit n else append before (digit (n % 10))

-- strconv.Itoa
unfoldable pub itoa : ℕ → String
unfolding digits
itoa n = digits (suc n) n

-- A character's code in lower case, where that is ASCII.
abbrev lower : ℕ → ℕ
lower c =
    if c == 0x130
    then b'i'
    else if c == 0x212A
    then b'k'
    else if leb 65 c && leb c 90
    then c + 32
    else c

-- strings.ToLower(s) == t, for an ASCII t
unfoldable pub is_lower_of : String → String → Bool
is_lower_of String.[] String.[] = true
is_lower_of (String.◌∷◌ c s) (String.◌∷◌ d t) = lower (code c) == code d && is_lower_of s t
is_lower_of _ _ = false
