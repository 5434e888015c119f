-- ===== src/Agent/Message.antt =====
-- internal/agent/message/message.go, and their translation to and from the messages of the SDK in
-- internal/agent/session.go. JSON is a text.
pub mod RoundTrip
use dfgo.Prelude.{
  String, Bool, true, false, str_eq, if◌then◌else◌, List, [], ◌∷◌, ◌++◌, map, Option, some, none,
}
use dfgo.Prelude.Text.{append}
use dfgo.Llm.Message as Llm
use dfgo.Llm.Message.{
  ContentKind, ContentPart, ToolCallData, Response, part_of, text_part, tool_call_part, message_of,
  text_message, message_text, message_tool_calls,
}

pub data Role : Type 0 where
  user assistant tool steering : Role

pub record ToolCall : Type 0 where
  pub id : String
  pub name : String
  pub args : String

pub record ToolResult : Type 0 where
  pub tool_call_id : String
  pub content : String
  pub full_output : String
  pub is_error : Bool

pub record Message : Type 0 where
  pub role : Role
  pub content : String
  pub tool_calls : List ToolCall
  pub tool_result : Option ToolResult
  pub is_steering : Bool

-- a message with a role and a content; the rest is zero
abbrev pub plain_message : Role → String → Message
plain_message r s = record {
  role = r;
  content = s;
  tool_calls = [];
  tool_result = none;
  is_steering = false;
}

unfoldable pub user_message : String → Message
user_message content = plain_message Role.user content

unfoldable pub steering_message : String → Message
steering_message content = record (plain_message Role.steering content) { is_steering = true }

abbrev pub tool_message : ToolResult → Message
tool_message r = record (plain_message Role.tool "") { tool_result = some r }

abbrev pub to_call : ToolCallData → ToolCall
to_call c = record { id = c.id; name = c.name; args = c.arguments }

abbrev pub of_call : ToolCall → ToolCallData
of_call c = record { id = c.id; name = c.name; arguments = c.args }

unfoldable pub response_to_message : Response → Message
response_to_message resp = record (plain_message Role.assistant (message_text resp.message)) {
  tool_calls = map to_call (message_tool_calls resp.message);
}

abbrev pub call_parts : List ToolCall → List ContentPart
call_parts [] = []
call_parts (c ∷ cs) = tool_call_part (of_call c) ∷ call_parts cs

unfoldable pub agent_to_llm_message : Message → Llm.Message
agent_to_llm_message m = elim m.role [
  | Role.assistant ↦
      message_of Llm.Role.assistant
        ((if str_eq m.content "" then [] else text_part m.content ∷ []) ++ call_parts m.tool_calls)
  | Role.tool ↦ elim m.tool_result [
    | some r ↦
        record (message_of Llm.Role.tool (
          record (part_of ContentKind.tool_result) {
            tool_result = some (record {
              tool_call_id = r.tool_call_id;
              content = r.content;
              is_error = r.is_error;
            });
          }
          ∷ [])) { tool_call_id = r.tool_call_id }
    | none ↦ text_message Llm.Role.user m.content
  ]
  | Role.steering ↦ text_message Llm.Role.user (append "[SYSTEM] " m.content)
  | Role.user ↦ text_message Llm.Role.user m.content
]
