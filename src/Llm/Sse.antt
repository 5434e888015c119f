-- ===== src/Llm/Sse.antt =====
-- internal/llm/sse.go: the scanner of server-sent events. The reader's text is its lines, as
-- `ReadString` gives them: the last one, without a newline, comes with the error of the reader.
pub mod RoundTrip
use dfgo.Prelude.{
  ℕ, zero, suc, String, Bool, true, false, ◌&&◌, ◌||◌, ◌==◌, not, code, str_eq, if◌then◌else◌, List,
  [], ◌∷◌, ◌++◌, Option, some, none,
}
use dfgo.Prelude.Text.{cut, append, split}

pub record SseEvent : Type 0 where
  pub event : String
  pub data_text : String
  pub id : String

-- strings.TrimRight(line, "\r\n")
unfoldable pub trim_line : String → String
trim_line String.[] = String.[]
trim_line (String.◌∷◌ c s) =
    let rest = trim_line s in
    if str_eq rest "" && (code c == 13 || code c == 10) then String.[] else String.◌∷◌ c rest

-- The variables of `Next`.
pub record Fields : Type 0 where
  pub event : String
  pub id : String
  pub data_lines : List String
  pub has_field : Bool

abbrev pub no_fields : Fields
no_fields = record { event = ""; id = ""; data_lines = []; has_field = false }

-- strings.TrimPrefix(value, " ")
abbrev pub trim_space_prefix : String → String
trim_space_prefix String.[] = String.[]
trim_space_prefix (String.◌∷◌ c s) = if code c == 32 then s else String.◌∷◌ c s

abbrev pub field_of : String → String → Fields → Fields
field_of field value f =
    if str_eq field "event"
    then record f { event = value; has_field = true }
    else if str_eq field "data"
    then record f { data_lines = f.data_lines ++ value ∷ []; has_field = true }
    else if str_eq field "id"
    then record f { id = value; has_field = true }
    else f

-- the first character is a colon
abbrev pub is_comment : String → Bool
is_comment String.[] = false
is_comment (String.◌∷◌ c s) = code c == b':'

-- a line that is not empty
unfoldable pub read_line : String → Fields → Fields
read_line line f = if is_comment line then f else elim (cut b':' line) [
  | none ↦ field_of line "" f
  | some (field, value) ↦ field_of field (trim_space_prefix value) f
]

-- strings.Join(lines, "\n")
abbrev pub join_lines : List String → String
join_lines [] = ""
join_lines (l ∷ []) = l
join_lines (l ∷ m ∷ ls) = append l (append "\n" (join_lines (m ∷ ls)))

abbrev pub event_of : Fields → SseEvent
event_of f = record { event = f.event; data_text = join_lines f.data_lines; id = f.id }

abbrev pub read_if : String → Fields → Fields
read_if line f = if str_eq line "" then f else read_line line f

-- The loop of `Next`: the event, where there is one, and the lines behind it. `is_eof`: the reader
-- ends by io.EOF.
module _ (is_eof : Bool) where
  unfoldable pub scan : Fields → List String → Option SseEvent × List String
  unfolding read_line trim_line
  scan f [] = (none, [])
  scan f (last ∷ []) =
      let g = read_if (trim_line last) f in
      if is_eof && g.has_field then (some (event_of g), "" ∷ []) else (none, "" ∷ [])
  scan f (line ∷ next ∷ rest) =
      let later = scan (read_if (trim_line line) f) (next ∷ rest) in
      if str_eq (trim_line line) "" && f.has_field then (some (event_of f), next ∷ rest) else later

  -- `Next` and `Event`
  unfoldable pub next_event : List String → Option SseEvent × List String
  unfolding scan
  next_event lines = scan no_fields lines

  -- `for scanner.Next()`, on fuel: each event but the last takes a line that ends it
  unfoldable pub all_events : ℕ → List String → List SseEvent
  unfolding next_event
  all_events zero lines = []
  all_events (suc fuel) lines =
      let (e, rest) = next_event lines in elim e [ none ↦ [] | some x ↦ x ∷ all_events fuel rest ]
