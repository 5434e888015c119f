-- ===== src/Llm/Sse/RoundTrip.antt =====
-- internal/llm/sse.go: events that are written as lines and scanned again.
use dfgo.Prelude.{
  ℕ, suc, String, Bool, true, false, ◌&&◌, ◌||◌, ◌==◌, not, code, Char, str_eq, str_eq-cases,
  if◌then◌else◌, List, [], ◌∷◌, ◌++◌, map, length, All, Option, some, none, ◌≡◌, refl, ap, ◌∙◌, inl,
  inr, Bool-cases, arith, ++_assoc, ++_nil,
}
use dfgo.Prelude.Text.{append, cut}
use dfgo.Llm.Sse.{
  SseEvent, Fields, no_fields, trim_line, read_line, read_if, join_lines, event_of, scan,
  next_event, all_events,
}

-- An event with the lines of its data.
pub record Message : Type 0 where
  pub event : String
  pub data_lines : List String
  pub id : String

abbrev pub scanned : Message → SseEvent
scanned m = record { event = m.event; data_text = join_lines m.data_lines; id = m.id }

-- The lines of an event, with the empty line that ends it, in front of others.
abbrev pub data_lines_of : List String → List String → List String
data_lines_of [] rest = rest
data_lines_of (l ∷ ls) rest = append "data: " l ∷ data_lines_of ls rest

abbrev pub lines_of : Message → List String → List String
lines_of m rest =
    append "event: " m.event ∷ data_lines_of m.data_lines (append "id: " m.id ∷ "" ∷ rest)

-- A text of events, with nothing behind the last newline.
abbrev pub text_of : List Message → List String
text_of [] = "" ∷ []
text_of (m ∷ ms) = lines_of m (text_of ms)

-- The texts do not end in a carriage return or a newline.
pub record IsPlain (m : Message) : Type 0 where
  pub event : trim_line m.event ≡ m.event
  pub lines : All (λ l. trim_line l ≡ l) m.data_lines
  pub id : trim_line m.id ≡ m.id

abbrev no_breaks : String → Bool
no_breaks String.[] = true
no_breaks (String.◌∷◌ c s) = not (code c == 13 || code c == 10) && no_breaks s

trim_line-append :
    (p s : String) → no_breaks p ≡ true → trim_line (append p s) ≡ append p (trim_line s)
unfolding trim_line
trim_line-append String.[] s h = refl
trim_line-append (String.◌∷◌ c p) s h = ground (arith, h, trim_line-append p s)

prefixed :
    (p s : String) → no_breaks p ≡ true → trim_line s ≡ s → trim_line (append p s) ≡ append p s
prefixed p s clean h = trim_line-append p s clean ∙ ap (append p) h

str_eq-cons : (c : Char) (s : String) → str_eq (String.◌∷◌ c s) "" ≡ false
str_eq-cons c s = elim (str_eq-cases (String.◌∷◌ c s) "") [
  | inl (_, p) ↦ absurd (cc p)
  | inr (e, _) ↦ e
]

abbrev HasHead : List String → Type 0
HasHead [] = ⊥
HasHead (l ∷ ls) = Unit {0}

HasHead-data_lines_of : (ls rest : List String) → HasHead rest → HasHead (data_lines_of ls rest)
HasHead-data_lines_of [] rest h = h
HasHead-data_lines_of (l ∷ ls) rest h = tt

HasHead-text_of : (ms : List Message) → HasHead (text_of ms)
HasHead-text_of [] = tt
HasHead-text_of (m ∷ ms) = tt

module _ (is_eof : Bool) where
  scan_field :
      (line : String) (f : Fields) (r : String) (rs : List String)
      → trim_line line ≡ line
      → str_eq line "" ≡ false
      → scan is_eof f (line ∷ r ∷ rs) ≡ scan is_eof (read_line line f) (r ∷ rs)
  unfolding scan
  scan_field line f r rs h e =
      let step : String → Option SseEvent × List String = λ t.
        if str_eq t "" && f.has_field
        then (some (event_of f), r ∷ rs)
        else scan is_eof (read_if t f) (r ∷ rs) in
      let opened : scan is_eof f (line ∷ r ∷ rs) ≡ step (trim_line line) = refl in
      let shut : step line ≡ scan is_eof (read_line line f) (r ∷ rs) = rw e refl in
      opened ∙ ap step h ∙ shut

  scan_end :
      (f : Fields) (r : String) (rs : List String)
      → f.has_field ≡ true
      → scan is_eof f ("" ∷ r ∷ rs) ≡ (some (event_of f), r ∷ rs)
  unfolding scan trim_line
  scan_end f r rs h =
      let step : Bool → Option SseEvent × List String =
        λ b. if b then (some (event_of f), r ∷ rs) else scan is_eof f (r ∷ rs) in
      let opened : scan is_eof f ("" ∷ r ∷ rs) ≡ step f.has_field = refl in opened ∙ ap step h

  -- the fields read so far, the event's name among them
  abbrev fields : String → List String → String → Fields
  fields event ls id = record { event = event; id = id; data_lines = ls; has_field = true }

  -- a field, in front of lines that are not all
  scan_field_of :
      (line : String) (f : Fields) (rest : List String)
      → HasHead rest
      → trim_line line ≡ line
      → str_eq line "" ≡ false
      → scan is_eof f (line ∷ rest) ≡ scan is_eof (read_line line f) rest
  scan_field_of line f [] some_line h e = absurd some_line
  scan_field_of line f (r ∷ rs) some_line h e = scan_field line f r rs h e

  scan_data :
      (event : String) (acc ls rest : List String)
      → HasHead rest
      → All (λ l. trim_line l ≡ l) ls
      → scan is_eof (fields event acc "") (data_lines_of ls rest)
        ≡ scan is_eof (fields event (acc ++ ls) "") rest
  unfolding read_line scan cut
  scan_data event acc [] rest some_line h = rw (++_nil acc) refl
  scan_data event acc (l ∷ ls) rest some_line h =
      scan_field_of (append "data: " l) (fields event acc "") (data_lines_of ls rest)
        (HasHead-data_lines_of ls rest some_line) (prefixed "data: " l refl h.0) (str_eq-cons _ _)
      ∙ scan_data event (acc ++ l ∷ []) ls rest some_line h.1
      ∙ ap (λ x. scan is_eof (fields event x "") rest) (++_assoc acc (l ∷ []) ls)

  next_event-lines_of :
      (m : Message) (r : String) (rs : List String)
      → IsPlain m
      → next_event is_eof (lines_of m (r ∷ rs)) ≡ (some (scanned m), r ∷ rs)
  unfolding next_event read_line cut
  next_event-lines_of m r rs h =
      let id_lines = append "id: " m.id ∷ "" ∷ r ∷ rs in
      let read = fields m.event m.data_lines "" in
      scan_field_of (append "event: " m.event) no_fields (data_lines_of m.data_lines id_lines)
        (HasHead-data_lines_of m.data_lines id_lines tt) (prefixed "event: " m.event refl h.event)
        (str_eq-cons _ _)
      ∙ scan_data m.event [] m.data_lines id_lines tt h.lines
      ∙ scan_field (append "id: " m.id) read "" (r ∷ rs) (prefixed "id: " m.id refl h.id)
          (str_eq-cons _ _)
      ∙ scan_end (record read { id = m.id }) r rs refl

  next_event-of :
      (m : Message) (rest : List String)
      → HasHead rest
      → IsPlain m
      → next_event is_eof (lines_of m rest) ≡ (some (scanned m), rest)
  next_event-of m [] some_line h = absurd some_line
  next_event-of m (r ∷ rs) some_line h = next_event-lines_of m r rs h

  nothing_left : next_event is_eof ("" ∷ []) ≡ (none, "" ∷ [])
  unfolding next_event scan trim_line
  nothing_left = elim (Bool-cases is_eof) [ inl e ↦ rw e refl | inr e ↦ rw e refl ]

  -- the loop behind a call of `Next`
  abbrev collect : ℕ → Option SseEvent × List String → List SseEvent
  collect fuel p = elim p.0 [ none ↦ [] | some x ↦ x ∷ all_events is_eof fuel p.1 ]

  -- Events that are written as an event line, their data lines, an id line and an empty line, where
  -- no text ends in a carriage return or a newline: scanning the text gives these events again, in
  -- order and no others, each with its data lines joined by newlines.
  pub all_events-text_of :
      (ms : List Message)
      → All IsPlain ms
      → all_events is_eof (suc (length ms)) (text_of ms) ≡ map scanned ms
  unfolding all_events
  all_events-text_of [] h = ap (collect 0) nothing_left
  all_events-text_of (m ∷ ms) h =
      ap (collect (suc (length ms))) (next_event-of m (text_of ms) (HasHead-text_of ms) h.0)
      ∙ ap (λ es. scanned m ∷ es) (all_events-text_of ms h.1)
