-- ===== src/Llm/Stream.antt =====
-- internal/llm/stream.go: the events of a stream, and a response wrapped as one. A stream is what
-- it delivers up to the close of its channel: `Send`, `Close` and the goroutine that feeds it are
-- left out.
pub mod Fallback
use dfgo.Prelude.{ℕ, suc, ◌+◌, ◌*◌, String, Bool, List, [], ◌∷◌, ◌++◌, length, Option, some, none}
use dfgo.Prelude.Result.{Result, ok, err}
use dfgo.Llm.Message.{ContentKind, ContentPart, ToolCallData, ThinkingData, Usage, Response}
use dfgo.Llm.Errors.{Error, nil, sdk, SdkKind}

pub data StreamEventType : Type 0 where
  content_start content_delta content_stop response_meta usage_event error_event : StreamEventType

pub record StreamEvent : Type 0 where
  pub type : StreamEventType
  pub index : ℕ
  pub content_kind : Option ContentKind
  pub text : String
  pub tool_call_id : String
  pub tool_name : String
  pub response_id : String
  pub model : String
  pub usage : Option Usage
  pub finish_reason : String
  pub error : Error

pub record Stream : Type 0 where
  pub capacity : ℕ
  pub events : List StreamEvent
  pub response : Option Response
  pub error : Error

-- the zero value of an event, with its type
abbrev pub event_of : StreamEventType → StreamEvent
event_of t = record {
  type = t;
  index = 0;
  content_kind = none;
  text = "";
  tool_call_id = "";
  tool_name = "";
  response_id = "";
  model = "";
  usage = none;
  finish_reason = "";
  error = nil;
}

-- start, delta and stop of one part
abbrev pub block : ℕ → ContentKind → String → String → String → List StreamEvent
block i kind call_id tool_name s =
    record (event_of StreamEventType.content_start) {
      index = i;
      content_kind = some kind;
      tool_call_id = call_id;
      tool_name = tool_name;
    }
    ∷ record (event_of StreamEventType.content_delta) {
      index = i;
      content_kind = some kind;
      text = s;
    }
    ∷ record (event_of StreamEventType.content_stop) { index = i; content_kind = some kind }
    ∷ []

abbrev pub part_events : ℕ → ContentPart → List StreamEvent
part_events i p = elim p.kind [
  | ContentKind.text ↦ block i ContentKind.text "" "" p.text
  | ContentKind.tool_call ↦ elim p.tool_call [
    | none ↦ []
    | some c ↦ block i ContentKind.tool_call c.id c.name c.arguments
  ]
  | ContentKind.thinking ↦ elim p.thinking [
    | none ↦ []
    | some t ↦ block i ContentKind.thinking "" "" t.text
  ]
  | _ ↦ []
]

abbrev pub content_events : ℕ → List ContentPart → List StreamEvent
content_events i [] = []
content_events i (p ∷ ps) = part_events i p ++ content_events (suc i) ps

-- bufSize
abbrev pub buffer_size : Result Error Response → ℕ
buffer_size (ok resp) = 2 + length resp.message.content * 3
buffer_size (err e) = 8

abbrev pub usage_of : Response → StreamEvent
usage_of resp = record (event_of StreamEventType.usage_event) {
  usage = some resp.usage;
  finish_reason = resp.finish_reason;
}

-- `CompleteToStream(resp, err)`; `none` where both are nil: a field of nil is read, and Go panics.
unfoldable pub complete_to_stream : Result Error Response → Option Stream
complete_to_stream (err nil) = none
complete_to_stream (err e) =
    some (record { capacity = buffer_size (err e); events = []; response = none; error = e })
complete_to_stream (ok resp) = some (record {
  capacity = buffer_size (ok resp);
  events =
      record (event_of StreamEventType.response_meta) { response_id = resp.id; model = resp.model }
      ∷ (content_events 0 resp.message.content ++ usage_of resp ∷ []);
  response = some resp;
  error = nil;
})

-- The loop on `stream.Next()` in `streamTurn`: the events up to the first error, and that error.
unfoldable pub read_events : List StreamEvent → List StreamEvent × Option Error
read_events [] = ([], none)
read_events (e ∷ es) =
    let (seen, failure) = read_events es in
    elim e.type [ StreamEventType.error_event ↦ ([], some e.error) | _ ↦ (e ∷ seen, failure) ]

-- What `streamTurn` returns once the events are read: the error of an event, that of the stream,
-- one for a missing response, or the response.
unfoldable pub stream_result : Stream → Result Error Response
unfolding read_events
stream_result s = elim (read_events s.events).1 [
  | some e ↦ err e
  | none ↦ elim s.error [
    | nil ↦ elim s.response [
      | some resp ↦ ok resp
      | none ↦ err (sdk SdkKind.sdk_error "stream completed without response" nil)
    ]
    | e ↦ err e
  ]
]
