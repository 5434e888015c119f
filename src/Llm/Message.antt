-- ===== src/Llm/Message.antt =====
-- internal/llm/types.go and request.go: messages, requests and responses. A kind or a role is one of
-- the constants; JSON and binary data are texts, and a `*float64` is a type of the caller's.
use dfgo.Prelude.{ℕ, String, Bool, List, [], ◌∷◌, Option, some, none}
use dfgo.Prelude.Text.{ℤ, append}

pub data Role : Type 0 where
  system user assistant tool developer : Role

pub data ContentKind : Type 0 where
  text image tool_call tool_result thinking : ContentKind

pub record ToolCallData : Type 0 where
  pub id : String
  pub name : String
  pub arguments : String

pub record ToolResultData : Type 0 where
  pub tool_call_id : String
  pub content : String
  pub is_error : Bool

pub record ThinkingData : Type 0 where
  pub text : String
  pub signature : String

pub record ContentPart : Type 0 where
  pub kind : ContentKind
  pub text : String
  pub tool_call : Option ToolCallData
  pub tool_result : Option ToolResultData
  pub thinking : Option ThinkingData
  pub mime_type : String
  pub data_bytes : String

pub record Message : Type 0 where
  pub role : Role
  pub content : List ContentPart
  pub name : String
  pub tool_call_id : String

-- the zero value of a part, with its kind
abbrev pub part_of : ContentKind → ContentPart
part_of k = record {
  kind = k;
  text = "";
  tool_call = none;
  tool_result = none;
  thinking = none;
  mime_type = "";
  data_bytes = "";
}

abbrev pub text_part : String → ContentPart
text_part s = record (part_of ContentKind.text) { text = s }

abbrev pub tool_call_part : ToolCallData → ContentPart
tool_call_part c = record (part_of ContentKind.tool_call) { tool_call = some c }

abbrev pub message_of : Role → List ContentPart → Message
message_of r parts = record { role = r; content = parts; name = ""; tool_call_id = "" }

unfoldable pub text_message : Role → String → Message
text_message role s = message_of role (text_part s ∷ [])

abbrev pub part_text : ContentPart → String
part_text p = elim p.kind [ ContentKind.text ↦ p.text | _ ↦ "" ]

-- `Message.Text` adds each text behind those before it.
abbrev pub text_in : List ContentPart → String
text_in [] = ""
text_in (p ∷ ps) = append (part_text p) (text_in ps)

unfoldable pub message_text : Message → String
message_text m = text_in m.content

abbrev pub part_calls : ContentPart → List ToolCallData → List ToolCallData
part_calls p rest = elim p.kind [
  | ContentKind.tool_call ↦ elim p.tool_call [ none ↦ rest | some c ↦ c ∷ rest ]
  | _ ↦ rest
]

abbrev pub calls_in : List ContentPart → List ToolCallData
calls_in [] = []
calls_in (p ∷ ps) = part_calls p (calls_in ps)

unfoldable pub message_tool_calls : Message → List ToolCallData
message_tool_calls m = calls_in m.content

pub record ToolDef : Type 0 where
  pub name : String
  pub description : String
  pub parameters : String

-- Counts of tokens; what a provider reports is not negative, and sums stay far below 2^63.
pub record Usage : Type 0 where
  pub input_tokens : ℕ
  pub output_tokens : ℕ
  pub total_tokens : ℕ
  pub reasoning_tokens : ℕ
  pub cache_read_tokens : ℕ
  pub cache_write_tokens : ℕ

-- The fields that the agent sets; `ToolChoice`, `TopP`, `Stop` and `ProviderOptions` stay zero.
pub record Request (F : Type 0) : Type 0 where
  pub model : String
  pub messages : List Message
  pub provider : String
  pub tools : List ToolDef
  pub temperature : Option F
  pub max_tokens : Option ℤ
  pub reasoning_effort : String

pub record Response : Type 0 where
  pub id : String
  pub model : String
  pub provider : String
  pub message : Message
  pub finish_reason : String
  pub usage : Usage
  pub raw : String
