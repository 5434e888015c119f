-- ===== src/Llm/Provider/Anthropic/Reader.antt =====
-- internal/llm/provider/anthropic_stream.go: `readStream`, from the decoded events of the API.
use dfgo.Prelude.{
  ℕ, ◌+◌, ◌==◌, String, Bool, if◌then◌else◌, List, [], ◌∷◌, ◌++◌, length, Option, some, none,
}
use dfgo.Prelude.Text.{append}
use dfgo.Llm.Message as Llm
use dfgo.Llm.Message.{
  ContentKind, ContentPart, Response, Usage, text_part, tool_call_part, part_of, message_of,
}
use dfgo.Llm.Errors.{Error, nil, sdk, SdkKind}
use dfgo.Llm.Stream.{StreamEvent, StreamEventType, event_of}
use dfgo.Llm.Provider.Wire.{Block, BlockType, Delta, DeltaType, Frame, StopReason}
use dfgo.Llm.Provider.Anthropic.{finish_reason}

-- `blockState`; no kind for a type of block that the code does not know
pub record BlockState : Type 0 where
  pub kind : Option ContentKind
  pub text : String
  pub tool_id : String
  pub tool_name : String
  pub signature : String

-- The variables of `readStream`, with the fields of `resp` that change, and the events sent so far.
pub record Reading : Type 0 where
  pub id : String
  pub model : String
  pub content : List ContentPart
  pub finish : String
  pub resp_usage : Usage
  pub usage : Usage
  pub blocks : List (ℕ × BlockState)
  pub sent : List StreamEvent

abbrev pub zero_usage : Usage
zero_usage = record {
  input_tokens = 0;
  output_tokens = 0;
  total_tokens = 0;
  reasoning_tokens = 0;
  cache_read_tokens = 0;
  cache_write_tokens = 0;
}

abbrev pub start_reading : Reading
start_reading = record {
  id = "";
  model = "";
  content = [];
  finish = "";
  resp_usage = zero_usage;
  usage = zero_usage;
  blocks = [];
  sent = [];
}

abbrev pub find_block : ℕ → List (ℕ × BlockState) → Option BlockState
find_block i [] = none
find_block i ((j, b) ∷ bs) = if i == j then some b else find_block i bs

-- What the loop does with an event besides changing its variables: nothing, a send, a send and
-- then `Finish`, or `Finish` alone.
pub data Act : Type 0 where
  pass : Act
  send : StreamEvent → Act
  finish_with : Option StreamEvent → Option Response → Error → Act

abbrev pub response_of : Reading → Response
response_of s = record {
  id = s.id;
  model = s.model;
  provider = "anthropic";
  message = message_of Llm.Role.assistant s.content;
  finish_reason = s.finish;
  usage = s.resp_usage;
  raw = "";
}

abbrev pub block_kind : BlockType → Option ContentKind
block_kind t = elim t [
  | BlockType.text ↦ some ContentKind.text
  | BlockType.tool_use ↦ some ContentKind.tool_call
  | BlockType.thinking ↦ some ContentKind.thinking
  | _ ↦ none
]

abbrev pub if_tool : BlockType → String → String
if_tool t s = elim t [ BlockType.tool_use ↦ s | _ ↦ "" ]

abbrev pub start_event : ℕ → Block → StreamEvent
start_event i b = record (event_of StreamEventType.content_start) {
  index = i;
  content_kind = block_kind b.type;
  tool_call_id = if_tool b.type b.id;
  tool_name = if_tool b.type b.name;
}

-- the state of a block that has just begun
abbrev pub opened : Block → BlockState
opened b = record {
  kind = block_kind b.type;
  text = "";
  tool_id = if_tool b.type b.id;
  tool_name = if_tool b.type b.name;
  signature = "";
}

abbrev pub on_start : ℕ → Block → Reading → Act × Reading
on_start i b s = (send (start_event i b), record s { blocks = (i, opened b) ∷ s.blocks })

abbrev pub delta_text : Delta → String
delta_text d = elim d.type [
  | DeltaType.text_delta ↦ d.text
  | DeltaType.input_json_delta ↦ d.partial_json
  | DeltaType.thinking_delta ↦ d.thinking
  | _ ↦ ""
]

abbrev pub delta_event : ℕ → BlockState → String → StreamEvent
delta_event i b text = record (event_of StreamEventType.content_delta) {
  index = i;
  content_kind = b.kind;
  text = text;
}

abbrev pub on_delta : ℕ → Delta → BlockState → Reading → Act × Reading
on_delta i d b s =
    let longer : BlockState = record b { text = append b.text (delta_text d) } in
    elim d.type [
      | DeltaType.signature_delta ↦ (
        pass,
        record s { blocks = (i, record b { signature = append b.signature d.text }) ∷ s.blocks },
      )
      | _ ↦ (send (delta_event i b (delta_text d)), record s { blocks = (i, longer) ∷ s.blocks })
    ]

abbrev pub built : BlockState → List ContentPart
built b = elim b.kind [
  | some ContentKind.text ↦ text_part b.text ∷ []
  | some ContentKind.tool_call ↦
      tool_call_part (record { id = b.tool_id; name = b.tool_name; arguments = b.text }) ∷ []
  | some ContentKind.thinking ↦
      record (part_of ContentKind.thinking) {
        thinking = some (record { text = b.text; signature = b.signature });
      }
      ∷ []
  | _ ↦ []
]

abbrev pub stop_event : ℕ → BlockState → StreamEvent
stop_event i b = record (event_of StreamEventType.content_stop) { index = i; content_kind = b.kind }

abbrev pub on_stop : ℕ → BlockState → Reading → Act × Reading
on_stop i b s = (send (stop_event i b), record s { content = s.content ++ built b })

abbrev pub usage_with : ℕ → Usage → Usage
usage_with output_tokens u = record u {
  output_tokens = output_tokens;
  total_tokens = u.input_tokens + output_tokens;
}

abbrev pub usage_sent : StopReason → ℕ → Reading → StreamEvent
usage_sent reason output_tokens s = record (event_of StreamEventType.usage_event) {
  usage = some (usage_with output_tokens s.usage);
  finish_reason = finish_reason reason;
}

abbrev pub on_message_delta : StopReason → ℕ → Reading → Act × Reading
on_message_delta reason output_tokens s =
    let usage = usage_with output_tokens s.usage in
    (
      send (usage_sent reason output_tokens s),
      record s { usage = usage; resp_usage = usage; finish = finish_reason reason },
    )

abbrev pub sdk_error : String → Error
sdk_error m = sdk SdkKind.sdk_error m nil

-- The switch on the name of the event.
unfoldable pub on_frame : Frame → Reading → Act × Reading
unfolding finish_reason
on_frame f s = elim f [
  | Frame.message_start id model input creation read ↦ (
    send (record (event_of StreamEventType.response_meta) { response_id = id; model = model }),
    record s {
      id = id;
      model = model;
      usage = record s.usage {
        input_tokens = input;
        cache_read_tokens = read;
        cache_write_tokens = creation;
      };
    },
  )
  | Frame.content_block_start i b ↦ on_start i b s
  | Frame.content_block_delta i d ↦ elim (find_block i s.blocks) [
    | none ↦ (pass, s)
    | some b ↦ on_delta i d b s
  ]
  | Frame.content_block_stop i ↦ elim (find_block i s.blocks) [
    | none ↦ (pass, s)
    | some b ↦ on_stop i b s
  ]
  | Frame.message_delta reason output ↦ on_message_delta reason output s
  | Frame.message_stop ↦ (finish_with none (some (response_of s)) nil, s)
  | Frame.error_frame kind m ↦
      let e = sdk_error (append "anthropic stream error: " (append kind (append ": " m))) in
      (finish_with (some (record (event_of StreamEventType.error_event) { error = e })) none e, s)
  | Frame.unreadable_error text ↦
      (finish_with none none (sdk_error (append "anthropic stream error: " text)), s)
  | Frame.ignored ↦ (pass, s)
]

-- How the goroutine ends: by `Finish`, which closes the channel, or by a return without it.
pub data Ended : Type 0 where
  finished : Option Response → Error → Ended
  abandoned : Ended

abbrev pub with_event : StreamEvent → Reading → Reading
with_event e s = record s { sent = s.sent ++ e ∷ [] }

-- Behind the last event: `scanner.Err()`, which is io.EOF at the end of the text.
abbrev pub at_end : Error → Ended
at_end nil = finished none (sdk_error "anthropic stream ended without message_stop")
at_end e = finished none (sdk SdkKind.network "anthropic stream interrupted" e)

-- The send of an event, of which so many have gone before, succeeds: the context has not ended.
module _ (accepts : ℕ → Bool) (scanner_err : Error) where
  abbrev pub finishing : Option StreamEvent → Reading → Reading
  finishing none s = s
  finishing (some e) s = if accepts (length s.sent) then with_event e s else s

  unfoldable pub read_stream : List Frame → Reading → Ended × Reading
  unfolding on_frame
  read_stream [] s = (at_end scanner_err, s)
  read_stream (f ∷ fs) s =
      let (act, s1) = on_frame f s in
      elim act [
        | pass ↦ read_stream fs s1
        | send e ↦
            let rest = read_stream fs (with_event e s1) in
            if accepts (length s1.sent) then rest else (abandoned, s1)
        | finish_with e resp error ↦ (finished resp error, finishing e s1)
      ]
