-- ===== src/Agent/Message/RoundTrip.antt =====
-- internal/agent/session.go: a response, kept in the conversation and sent back.
use dfgo.Prelude.{str_eq-cases, inl, inr, List, [], ◌∷◌, map, ◌≡◌, refl, ap, ◌∙◌, sym}
use dfgo.Prelude.Text.{append, append_empty}
use dfgo.Llm.Message.{Response, ToolCallData, message_text, message_tool_calls, text_in, calls_in}
use dfgo.Agent.Message.{agent_to_llm_message, response_to_message, call_parts, to_call}

calls_in-call_parts : (cs : List ToolCallData) → calls_in (call_parts (map to_call cs)) ≡ cs
calls_in-call_parts [] = refl
calls_in-call_parts (c ∷ cs) = ap (λ ds. c ∷ ds) (calls_in-call_parts cs)

text_in-call_parts : (cs : List ToolCallData) → text_in (call_parts (map to_call cs)) ≡ ""
text_in-call_parts [] = refl
text_in-call_parts (c ∷ cs) = text_in-call_parts cs

-- The assistant's message that is sent to the model in later rounds has the text and the tool calls
-- (ids, names and arguments, in order) of the response that it was made from.
pub agent_to_llm_message-response_to_message :
    (resp : Response)
    → (message_text (agent_to_llm_message (response_to_message resp)) ≡ message_text resp.message)
      × (message_tool_calls (agent_to_llm_message (response_to_message resp))
          ≡ message_tool_calls resp.message)
unfolding agent_to_llm_message response_to_message message_text message_tool_calls
agent_to_llm_message-response_to_message resp =
    let calls = calls_in resp.message.content in
    elim (str_eq-cases (text_in resp.message.content) "") [
      | inl (e, same) ↦ rw e (text_in-call_parts calls ∙ sym same, calls_in-call_parts calls)
      | inr (e, other) ↦ rw e (
        ap (append (text_in resp.message.content)) (text_in-call_parts calls)
            ∙ append_empty (text_in resp.message.content),
        calls_in-call_parts calls,
      )
    ]
