-- ===== src/Llm/Provider/Anthropic.antt =====
-- internal/llm/provider/anthropic.go: requests and responses. HTTP is left out, and encoding/json is
-- a parameter.
pub mod Content
pub mod Reader
pub mod Whole
pub mod Caching
use dfgo.Prelude.{ℕ, ◌+◌, String, Bool, true, false, List, [], ◌∷◌, ◌++◌, map, Option, some, none}
use dfgo.Prelude.Text.{ℤ, pos}
use dfgo.Llm.Message as Llm
use dfgo.Llm.Message.{
  ContentKind, ContentPart, Message, ToolDef, Request, Response, text_part, tool_call_part, part_of,
  message_of, message_text,
}
use dfgo.Llm.Provider.Wire.{
  Block, BlockType, WireMessage, WireRole, WireTool, WireRequest, WireResponse, StopReason,
}

-- the zero value of a block, with its type
abbrev pub block_of : BlockType → Block
block_of t = record {
  type = t;
  text = "";
  id = "";
  name = "";
  input = "";
  tool_use_id = "";
  content = "";
  is_error = false;
  thinking = "";
  signature = "";
  cache_control = false;
}

abbrev pub text_block : String → Block
text_block s = record (block_of BlockType.text) { text = s }

-- json.Marshal and json.Unmarshal of lists of blocks, and the text of one block within a block
pub record Json : Type 1 where
  pub J : Type 0
  pub marshal : List Block → J
  pub unmarshal : J → Option (List Block)
  pub marshal_inner : List Block → String

-- an empty text where there is nothing else
abbrev pub or_empty : List Block → List Block
or_empty [] = text_block "" ∷ []
or_empty (b ∷ bs) = b ∷ bs

abbrev pub is_system : Message → Bool
is_system m = elim m.role [ Llm.Role.system ↦ true | Llm.Role.developer ↦ true | _ ↦ false ]

abbrev pub system_parts : List Message → List Block
system_parts [] = []
system_parts (m ∷ ms) = elim (is_system m) [
  | true ↦ text_block (message_text m) ∷ system_parts ms
  | false ↦ system_parts ms
]

abbrev pub other_messages : List Message → List Message
other_messages [] = []
other_messages (m ∷ ms) = elim (is_system m) [
  | true ↦ other_messages ms
  | false ↦ m ∷ other_messages ms
]

unfoldable pub anthropic_role : Llm.Role → WireRole
anthropic_role r = elim r [ Llm.Role.assistant ↦ WireRole.assistant | _ ↦ WireRole.user ]

abbrev pub wire_tool : ToolDef → WireTool
wire_tool t = record {
  name = t.name;
  description = t.description;
  input_schema = t.parameters;
  cache_control = false;
}

abbrev pub mark_last_block : List Block → List Block
mark_last_block [] = []
mark_last_block (b ∷ []) = record b { cache_control = true } ∷ []
mark_last_block (b ∷ c ∷ bs) = b ∷ mark_last_block (c ∷ bs)

abbrev pub mark_last_tool : List WireTool → List WireTool
mark_last_tool [] = []
mark_last_tool (t ∷ []) = record t { cache_control = true } ∷ []
mark_last_tool (t ∷ u ∷ ts) = t ∷ mark_last_tool (u ∷ ts)

abbrev pub is_user : {J : Type 0} → WireMessage J → Bool
is_user m = elim m.role [ WireRole.user ↦ true | WireRole.assistant ↦ false ]

abbrev pub any_user : {J : Type 0} → List (WireMessage J) → Bool
any_user [] = false
any_user (m ∷ ms) = elim (is_user m) [ true ↦ true | false ↦ any_user ms ]

module _ (json : Json) where
  open json use {J, marshal, unmarshal, marshal_inner}

  abbrev pub part_blocks : ContentPart → List Block
  part_blocks p = elim p.kind [
    | ContentKind.text ↦ text_block p.text ∷ []
    | ContentKind.tool_call ↦ elim p.tool_call [
      | none ↦ []
      | some c ↦
          record (block_of BlockType.tool_use) { id = c.id; name = c.name; input = c.arguments }
          ∷ []
    ]
    | ContentKind.tool_result ↦ elim p.tool_result [
      | none ↦ []
      | some r ↦
          record (block_of BlockType.tool_result) {
            tool_use_id = r.tool_call_id;
            content = marshal_inner (text_block r.content ∷ []);
            is_error = r.is_error;
          }
          ∷ []
    ]
    | ContentKind.thinking ↦ elim p.thinking [
      | none ↦ []
      | some t ↦
          record (block_of BlockType.thinking) { thinking = t.text; signature = t.signature } ∷ []
    ]
    | ContentKind.image ↦ []
  ]

  abbrev pub blocks_of : List ContentPart → List Block
  blocks_of [] = []
  blocks_of (p ∷ ps) = part_blocks p ++ blocks_of ps

  unfoldable pub content_to_blocks : Message → List Block
  content_to_blocks m = or_empty (blocks_of m.content)

  abbrev pub wire_message : Message → WireMessage J
  wire_message m = record { role = anthropic_role m.role; content = marshal (content_to_blocks m) }

  -- the last block of a list in JSON; nothing where it does not parse
  abbrev pub mark_json : J → J
  mark_json s = elim (unmarshal s) [
    | none ↦ s
    | some [] ↦ s
    | some (b ∷ bs) ↦ marshal (mark_last_block (b ∷ bs))
  ]

  abbrev pub marked_system : Option J → Option J
  marked_system none = none
  marked_system (some s) = some (mark_json s)

  abbrev pub system_json : List Block → Option J
  system_json [] = none
  system_json (b ∷ bs) = some (marshal (b ∷ bs))

  -- the last message of the user
  abbrev pub mark_last_user : List (WireMessage J) → List (WireMessage J)
  mark_last_user [] = []
  mark_last_user (m ∷ ms) = elim (any_user ms) [
    | true ↦ m ∷ mark_last_user ms
    | false ↦ elim (is_user m) [
      | true ↦ record m { content = mark_json m.content } ∷ ms
      | false ↦ m ∷ ms
    ]
  ]

  unfoldable pub inject_cache_breakpoints : {F : Type 0} → WireRequest J F → WireRequest J F
  inject_cache_breakpoints ar = record ar {
    system = marked_system ar.system;
    tools = mark_last_tool ar.tools;
    messages = mark_last_user ar.messages;
  }

  -- `buildRequest`, up to the last json.Marshal
  unfoldable pub build_request : {F : Type 0} → Request F → WireRequest J F
  unfolding content_to_blocks anthropic_role inject_cache_breakpoints
  build_request req = inject_cache_breakpoints (record {
    model = req.model;
    messages = map wire_message (other_messages req.messages);
    system = system_json (system_parts req.messages);
    max_tokens = elim req.max_tokens [ none ↦ pos 4096 | some n ↦ n ];
    temperature = req.temperature;
    tools = map wire_tool req.tools;
  })

abbrev pub parse_block : Block → List ContentPart → List ContentPart
parse_block b rest = elim b.type [
  | BlockType.text ↦ text_part b.text ∷ rest
  | BlockType.tool_use ↦
      tool_call_part (record { id = b.id; name = b.name; arguments = b.input }) ∷ rest
  | BlockType.thinking ↦
      record (part_of ContentKind.thinking) {
        thinking = some (record { text = b.thinking; signature = b.signature });
      }
      ∷ rest
  | _ ↦ rest
]

abbrev pub parse_blocks : List Block → List ContentPart
parse_blocks [] = []
parse_blocks (b ∷ bs) = parse_block b (parse_blocks bs)

unfoldable pub finish_reason : StopReason → String
finish_reason r = elim r [
  | StopReason.tool_use ↦ "tool_use"
  | StopReason.max_tokens ↦ "length"
  | _ ↦ "stop"
]

-- `parseResponse` of a body that parses, which is kept as `raw`
unfoldable pub parse_response : WireResponse → String → Response
unfolding finish_reason
parse_response ar body = record {
  id = ar.id;
  model = ar.model;
  provider = "anthropic";
  message = message_of Llm.Role.assistant (parse_blocks ar.content);
  finish_reason = finish_reason ar.stop_reason;
  usage = record {
    input_tokens = ar.input_tokens;
    output_tokens = ar.output_tokens;
    total_tokens = ar.input_tokens + ar.output_tokens;
    reasoning_tokens = 0;
    cache_read_tokens = ar.cache_read_input_tokens;
    cache_write_tokens = ar.cache_creation_input_tokens;
  };
  raw = body;
}
