-- ===== src/Llm/Provider/Wire.antt =====
-- internal/llm/provider/anthropic.go and anthropic_stream.go: the data on the wire, decoded. JSON
-- itself is a parameter of what uses it; a type tag that the code does not know is `unknown`.
use dfgo.Prelude.{ℕ, String, Bool, List, Option}
use dfgo.Prelude.Text.{ℤ}

pub data BlockType : Type 0 where
  text tool_use tool_result thinking unknown : BlockType

-- `anthropicContentBlock`; the cache control is there or not
pub record Block : Type 0 where
  pub type : BlockType
  pub text : String
  pub id : String
  pub name : String
  pub input : String
  pub tool_use_id : String
  pub content : String
  pub is_error : Bool
  pub thinking : String
  pub signature : String
  pub cache_control : Bool

pub data WireRole : Type 0 where
  user assistant : WireRole

-- `anthropicMessage`, with its content as JSON, of a type J
pub record WireMessage (J : Type 0) : Type 0 where
  pub role : WireRole
  pub content : J

-- `anthropicTool`
pub record WireTool : Type 0 where
  pub name : String
  pub description : String
  pub input_schema : String
  pub cache_control : Bool

-- `anthropicRequest`, without the fields that the agent's requests leave at zero
pub record WireRequest (J F : Type 0) : Type 0 where
  pub model : String
  pub messages : List (WireMessage J)
  pub system : Option J
  pub max_tokens : ℤ
  pub temperature : Option F
  pub tools : List WireTool

pub data StopReason : Type 0 where
  end_turn stop_sequence tool_use max_tokens unknown : StopReason

-- `anthropicResponse`
pub record WireResponse : Type 0 where
  pub id : String
  pub content : List Block
  pub model : String
  pub stop_reason : StopReason
  pub input_tokens : ℕ
  pub output_tokens : ℕ
  pub cache_creation_input_tokens : ℕ
  pub cache_read_input_tokens : ℕ

pub data DeltaType : Type 0 where
  text_delta input_json_delta thinking_delta signature_delta unknown : DeltaType

-- The `delta` of a `content_block_delta`; the API's `signature` is not among its fields.
pub record Delta : Type 0 where
  pub type : DeltaType
  pub text : String
  pub partial_json : String
  pub thinking : String

-- An event of the stream, by its name and its data. `ignored` is a ping, an event of another name,
-- or one whose data is no JSON of its type.
pub data Frame : Type 0 where
  message_start : String → String → ℕ → ℕ → ℕ → Frame
  content_block_start : ℕ → Block → Frame
  content_block_delta : ℕ → Delta → Frame
  content_block_stop : ℕ → Frame
  message_delta : StopReason → ℕ → Frame
  message_stop : Frame
  error_frame : String → String → Frame
  unreadable_error : String → Frame
  ignored : Frame
