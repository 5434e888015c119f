-- ===== src/Llm/Provider/Anthropic/Whole.antt =====
-- internal/llm/provider/anthropic_stream.go: a response that the API streams, against the same
-- response in one piece.
use dfgo.Prelude.{
  ℕ, suc, String, Bool, true, if◌then◌else◌, List, [], ◌∷◌, ◌++◌, length, some, All, ◌≡◌, refl, sym,
  ap, ◌∙◌, inl, inr, arith, ++_assoc, ++_nil, ◌⊎◌,
}
use dfgo.Prelude.Text.{append, append_assoc, append_empty}
use dfgo.Llm.Message.{Usage, ContentPart}
use dfgo.Llm.Errors.{Error, nil}
use dfgo.Llm.Stream.{StreamEvent}
use dfgo.Llm.Provider.Wire.{Block, BlockType, Delta, DeltaType, Frame, WireResponse}
use dfgo.Llm.Provider.Anthropic.{parse_response, parse_blocks, parse_block}
use dfgo.Llm.Provider.Anthropic.Reader.{
  Reading, BlockState, Act, send, pass, finish_with, start_reading, on_frame, start_event,
  stop_event, opened, on_start, on_message_delta, on_stop, usage_sent, zero_usage, find_block,
  with_event, Ended, finished, abandoned, read_stream, built, delta_event, finishing,
}

abbrev pub join : List String → String
join [] = ""
join (s ∷ ss) = append s (join ss)

-- what the deltas of a block make up
abbrev pub payload : Block → String
payload b = elim b.type [
  | BlockType.text ↦ b.text
  | BlockType.tool_use ↦ b.input
  | BlockType.thinking ↦ b.thinking
  | _ ↦ ""
]

abbrev pub no_delta : DeltaType → Delta
no_delta t = record { type = t; text = ""; partial_json = ""; thinking = "" }

abbrev pub delta_of : BlockType → String → Delta
delta_of t s = elim t [
  | BlockType.text ↦ record (no_delta DeltaType.text_delta) { text = s }
  | BlockType.tool_use ↦ record (no_delta DeltaType.input_json_delta) { partial_json = s }
  | BlockType.thinking ↦ record (no_delta DeltaType.thinking_delta) { thinking = s }
  | _ ↦ no_delta DeltaType.unknown
]

abbrev pub delta_frames : ℕ → BlockType → List String → List Frame
delta_frames i t [] = []
delta_frames i t (s ∷ ss) = Frame.content_block_delta i (delta_of t s) ∷ delta_frames i t ss

-- The events for a block, whose text comes in the pieces.
abbrev pub block_frames : ℕ → Block → List String → List Frame
block_frames i b pieces =
    Frame.content_block_start i b
    ∷ (delta_frames i b.type pieces ++ Frame.content_block_stop i ∷ [])

abbrev pub all_frames : ℕ → List (Block × List String) → List Frame
all_frames i [] = []
all_frames i ((b, pieces) ∷ bs) = block_frames i b pieces ++ all_frames (suc i) bs

abbrev pub last_frames : WireResponse → List Frame
last_frames ar = Frame.message_delta ar.stop_reason ar.output_tokens ∷ Frame.message_stop ∷ []

-- The events that the API sends for a response, from the message's start to its stop.
abbrev pub response_frames : WireResponse → List (Block × List String) → List Frame
response_frames ar cut =
    Frame.message_start ar.id ar.model ar.input_tokens ar.cache_creation_input_tokens
      ar.cache_read_input_tokens
    ∷ (all_frames 0 cut ++ last_frames ar)

-- Blocks of text, of tool use and of thinking without a signature, each with pieces that make up
-- its text.
pub record IsCut (p : Block × List String) : Type 0 where
  pub whole : join p.1 ≡ payload p.0
  pub known :
      (p.0.type ≡ BlockType.text)
      ⊎ ((p.0.type ≡ BlockType.tool_use) ⊎ ((p.0.type ≡ BlockType.thinking) × (p.0.signature ≡ "")))

abbrev pub blocks_in : List (Block × List String) → List Block
blocks_in [] = []
blocks_in ((b, pieces) ∷ bs) = b ∷ blocks_in bs

parse_block-append :
    (b : Block) (rest : List ContentPart) → parse_block b rest ≡ parse_block b [] ++ rest
parse_block-append b rest = ground arith

-- the types that have deltas
abbrev HasDelta : BlockType → Type 0
HasDelta t = (t ≡ BlockType.text) ⊎ ((t ≡ BlockType.tool_use) ⊎ (t ≡ BlockType.thinking))

no_tool_result : HasDelta BlockType.tool_result → ⊥
no_tool_result h = elim h [ inl e ↦ cc | inr k ↦ elim k [ inl e ↦ cc | inr e ↦ cc ] ]

no_unknown : HasDelta BlockType.unknown → ⊥
no_unknown h = elim h [ inl e ↦ cc | inr k ↦ elim k [ inl e ↦ cc | inr e ↦ cc ] ]

abbrev grown : BlockState → String → BlockState
grown b c = record b { text = append b.text c }

-- The variables besides the blocks and what was sent.
record SameCore (s t : Reading) (parts : List ContentPart) : Type 0 where
  id : t.id ≡ s.id
  model : t.model ≡ s.model
  content : t.content ≡ parts
  usage : t.usage ≡ s.usage

HasDelta-of_IsCut : (p : Block × List String) → IsCut p → HasDelta p.0.type
HasDelta-of_IsCut p cut = elim cut.known [
  | inl e ↦ inl e
  | inr k ↦ elim k [ inl e ↦ inr (inl e) | inr (e, _) ↦ inr (inr e) ]
]

built-block :
    (b : Block) (pieces : List String)
    → IsCut (b, pieces)
    → built (grown (opened b) (join pieces)) ≡ parse_block b []
built-block b pieces cut = elim cut.known [
  | inl e ↦ let j : join pieces ≡ b.text = rw e at cut.whole in rw (e, j) refl
  | inr k ↦ elim k [
    | inl e ↦ let j : join pieces ≡ b.input = rw e at cut.whole in rw (e, j) refl
    | inr (e, unsigned) ↦
        let j : join pieces ≡ b.thinking = rw e at cut.whole in rw (e, j, unsigned) refl
  ]
]

-- what `message_start` leaves of the usage
abbrev started_usage : WireResponse → Usage
started_usage ar = record zero_usage {
  input_tokens = ar.input_tokens;
  cache_read_tokens = ar.cache_read_input_tokens;
  cache_write_tokens = ar.cache_creation_input_tokens;
}

module _ (accepts : ℕ → Bool) (scanner_err : Error)
    (open_channel : (n : ℕ) → accepts n ≡ true) where
  -- the loop behind the switch
  abbrev behind : List Frame → Act × Reading → Ended × Reading
  behind fs p = elim p.0 [
    | pass ↦ read_stream accepts scanner_err fs p.1
    | send e ↦
        if accepts (length p.1.sent)
        then read_stream accepts scanner_err fs (with_event e p.1)
        else (abandoned, p.1)
    | finish_with e resp error ↦ (finished resp error, finishing accepts scanner_err e p.1)
  ]

  read_send :
      (f : Frame) (fs : List Frame) (s s1 : Reading) (e : StreamEvent)
      → on_frame f s ≡ (send e, s1)
      → read_stream accepts scanner_err (f ∷ fs) s
        ≡ read_stream accepts scanner_err fs (with_event e s1)
  unfolding read_stream
  read_send f fs s s1 e h =
      let one : read_stream accepts scanner_err (f ∷ fs) s ≡ behind fs (on_frame f s) = refl in
      one ∙ ap (behind fs) h ∙ rw (open_channel (length s1.sent)) refl

  delta-on_frame :
      (i : ℕ) (t : BlockType) (c : String) (s : Reading) (b : BlockState)
      → HasDelta t
      → find_block i s.blocks ≡ some b
      → on_frame (Frame.content_block_delta i (delta_of t c)) s
        ≡ (send (delta_event i b c), record s { blocks = (i, grown b c) ∷ s.blocks })
  unfolding on_frame
  delta-on_frame i BlockType.text c s b h found = rw (on_frame, found) refl
  delta-on_frame i BlockType.tool_use c s b h found = rw (on_frame, found) refl
  delta-on_frame i BlockType.thinking c s b h found = rw (on_frame, found) refl
  delta-on_frame i BlockType.tool_result c s b h found = absurd (no_tool_result h)
  delta-on_frame i BlockType.unknown c s b h found = absurd (no_unknown h)

  found_first :
      (i : ℕ) (b : BlockState) (bs : List (ℕ × BlockState)) → find_block i ((i, b) ∷ bs) ≡ some b
  found_first i b bs = ground arith

  deltas-read :
      (i : ℕ) (t : BlockType) (pieces : List String) (fs : List Frame) (s : Reading)
      (b : BlockState)
      → HasDelta t
      → find_block i s.blocks ≡ some b
      → (u : Reading) × (read_stream accepts scanner_err (delta_frames i t pieces ++ fs) s
          ≡ read_stream accepts scanner_err fs u)
        × SameCore s u s.content
        × (find_block i u.blocks ≡ some (grown b (join pieces)))
  deltas-read i t [] fs s b h found = (
    s,
    refl,
    record { id = refl; model = refl; content = refl; usage = refl },
    found ∙ ap some (ap (λ x. record b { text = x }) (sym (append_empty b.text))),
  )
  deltas-read i t (c ∷ cs) fs s b h found =
      let s1 : Reading = record s { blocks = (i, grown b c) ∷ s.blocks } in
      let s2 = with_event (delta_event i b c) s1 in
      let (u, same, core, there) =
        deltas-read i t cs fs s2 (grown b c) h (found_first i (grown b c) s.blocks) in
      (
        u,
        read_send _ (delta_frames i t cs ++ fs) s s1 _ (delta-on_frame i t c s b h found) ∙ same,
        record { id = core.id; model = core.model; content = core.content; usage = core.usage },
        there ∙ ap some (ap (λ x. record b { text = x }) (append_assoc b.text c (join cs))),
      )

  -- one block, from its start to its stop
  block-read :
      (i : ℕ) (b : Block) (pieces : List String) (fs : List Frame) (s : Reading)
      → IsCut (b, pieces)
      → (u : Reading) × (read_stream accepts scanner_err (block_frames i b pieces ++ fs) s
          ≡ read_stream accepts scanner_err fs u)
        × SameCore s u (s.content ++ parse_block b [])
  unfolding on_frame
  block-read i b pieces fs s cut =
      let e = start_event i b in
      let s1 = (on_start i b s).1 in
      let s2 = with_event e s1 in
      let stop = Frame.content_block_stop i in
      let deltas = delta_frames i b.type pieces in
      let (t, read, core, there) =
        deltas-read i b.type pieces (stop ∷ fs) s2 (opened b) (HasDelta-of_IsCut (b, pieces) cut)
          (found_first i (opened b) s.blocks) in
      let f = stop_event i (grown (opened b) (join pieces)) in
      let t1 = (on_stop i (grown (opened b) (join pieces)) t).1 in
      (
        with_event f t1,
        read_send (Frame.content_block_start i b) ((deltas ++ stop ∷ []) ++ fs) s s1 e refl
            ∙ ap (λ l. read_stream accepts scanner_err l s2) (++_assoc deltas (stop ∷ []) fs)
            ∙ read
            ∙ read_send stop fs t t1 f (rw (on_frame, there) refl),
        record {
          id = core.id;
          model = core.model;
          content =
              ap (λ l. l ++ built (grown (opened b) (join pieces))) core.content
              ∙ ap (λ l. s.content ++ l) (built-block b pieces cut);
          usage = core.usage;
        },
      )

  all-read :
      (i : ℕ) (cut : List (Block × List String)) (fs : List Frame) (s : Reading)
      → All IsCut cut
      → (u : Reading) × (read_stream accepts scanner_err (all_frames i cut ++ fs) s
          ≡ read_stream accepts scanner_err fs u)
        × SameCore s u (s.content ++ parse_blocks (blocks_in cut))
  all-read i [] fs s h =
      (s, refl, record { id = refl; model = refl; content = sym (++_nil s.content); usage = refl })
  all-read i ((b, pieces) ∷ bs) fs s h =
      let (t, one, c) = block-read i b pieces (all_frames (suc i) bs ++ fs) s h.0 in
      let (u, rest, d) = all-read (suc i) bs fs t h.1 in
      (
        u,
        ap (λ l. read_stream accepts scanner_err l s)
              (++_assoc (block_frames i b pieces) (all_frames (suc i) bs) fs)
            ∙ one
            ∙ rest,
        record {
          id = d.id ∙ c.id;
          model = d.model ∙ c.model;
          content =
              d.content
              ∙ ap (λ l. l ++ parse_blocks (blocks_in bs)) c.content
              ∙ ++_assoc s.content (parse_block b []) (parse_blocks (blocks_in bs))
              ∙ ap (λ l. s.content ++ l) (sym (parse_block-append b (parse_blocks (blocks_in bs))));
          usage = d.usage ∙ c.usage;
        },
      )

  last-read :
      (ar : WireResponse) (t : Reading)
      → t.id ≡ ar.id
      → t.model ≡ ar.model
      → t.content ≡ parse_blocks ar.content
      → t.usage ≡ started_usage ar
      → (read_stream accepts scanner_err (last_frames ar) t).0
        ≡ finished (some (parse_response ar "")) nil
  unfolding on_frame parse_response read_stream
  last-read ar t id model content usage =
      let t1 = (on_message_delta ar.stop_reason ar.output_tokens t).1 in
      let e = usage_sent ar.stop_reason ar.output_tokens t in
      ap (λ p. p.0)
        (read_send (Frame.message_delta ar.stop_reason ar.output_tokens) (Frame.message_stop ∷ []) t
          t1 e refl)
      ∙ rw (id, model, content, usage) refl

  -- A response of the API with blocks of text, tool use and thinking without a signature, streamed
  -- as the API does, each block's text in pieces of any size, while no send is refused: the reader
  -- of the stream finishes without an error and with the response, raw body aside, that the same
  -- response gives in one piece: id, model, content, finish reason and usage.
  pub read_stream-parse_response :
      (ar : WireResponse) (cut : List (Block × List String))
      → All IsCut cut
      → blocks_in cut ≡ ar.content
      → (read_stream accepts scanner_err (response_frames ar cut) start_reading).0
        ≡ finished (some (parse_response ar "")) nil
  unfolding on_frame parse_response
  read_stream-parse_response ar cut h same =
      let start =
        Frame.message_start ar.id ar.model ar.input_tokens ar.cache_creation_input_tokens
          ar.cache_read_input_tokens in
      let last = last_frames ar in
      let s1 = (on_frame start start_reading).1 in
      let s2 = with_event _ s1 in
      let (t, read, core) = all-read 0 cut last s2 h in
      ap (λ p. p.0) (read_send start (all_frames 0 cut ++ last) start_reading s1 _ refl ∙ read)
      ∙ last-read ar t core.id core.model (core.content ∙ ap parse_blocks same) core.usage
