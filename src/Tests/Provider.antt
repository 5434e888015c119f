-- ===== src/Tests/Provider.antt =====
-- The adapter of the Anthropic API at concrete requests and streams.
use dfgo.Prelude.{ℕ, ◌≤◌, String, true, List, [], ◌∷◌, some, none, ◌≡◌, refl, inl, inr}
use dfgo.Llm.Message.{Role, Request, ContentPart, text_part, tool_call_part, message_of}
use dfgo.Llm.Errors.{nil, other}
use dfgo.Llm.Provider.Wire.{Block, BlockType, WireResponse, StopReason}
use dfgo.Llm.Provider.Anthropic.{
  Json, block_of, text_block, build_request, content_to_blocks, parse_blocks, parse_response,
}
use dfgo.Llm.Provider.Anthropic.Reader.{read_stream, finished, start_reading}
use dfgo.Llm.Provider.Anthropic.Content.{said, called, parse_blocks-content_to_blocks}
use dfgo.Llm.Provider.Anthropic.Caching.{marks, build_request-marks}
use dfgo.Llm.Provider.Anthropic.Whole.{response_frames, read_stream-parse_response}

-- JSON that keeps the blocks
abbrev plain_json : Json
plain_json = record {
  J = List Block;
  marshal = λ bs. bs;
  unmarshal = λ bs. some bs;
  marshal_inner = λ bs. "";
}

abbrev parts : List ContentPart
parts =
    text_part "done" ∷ tool_call_part (record { id = "t1"; name = "shell"; arguments = "{}" }) ∷ []

parse_blocks-content_to_blocks_example :
    parse_blocks (content_to_blocks plain_json (message_of Role.assistant parts)) ≡ parts
parse_blocks-content_to_blocks_example =
    parse_blocks-content_to_blocks plain_json parts (said _, (called _, tt)) (λ e. cc)

abbrev request : Request ℕ
request = record {
  model = "m";
  messages =
      message_of Role.system (text_part "be brief" ∷ [])
      ∷ message_of Role.user (text_part "hi" ∷ [])
      ∷ message_of Role.assistant parts
      ∷ [];
  provider = "";
  tools = record { name = "shell"; description = ""; parameters = "{}" } ∷ [];
  temperature = none;
  max_tokens = none;
  reasoning_effort = "";
}

build_request-marks_example : marks plain_json (build_request plain_json request) ≤ 3
build_request-marks_example = build_request-marks plain_json (λ bs. refl) request

abbrev tool_block : Block
tool_block = record (block_of BlockType.tool_use) { id = "t1"; name = "shell"; input = "{\"a\":1}" }

abbrev answer : WireResponse
answer = record {
  id = "msg1";
  content = text_block "done" ∷ tool_block ∷ [];
  model = "m";
  stop_reason = StopReason.tool_use;
  input_tokens = 7;
  output_tokens = 4;
  cache_creation_input_tokens = 0;
  cache_read_input_tokens = 2;
}

abbrev cut : List (Block × List String)
cut = (text_block "done", "do" ∷ "ne" ∷ []) ∷ (tool_block, "" ∷ "{\"a\"" ∷ ":1}" ∷ []) ∷ []

read_stream-parse_response_example :
    (read_stream (λ n. true) (other "EOF") (response_frames answer cut) start_reading).0
    ≡ finished (some (parse_response answer "")) nil
read_stream-parse_response_example =
    read_stream-parse_response (λ n. true) (other "EOF") (λ n. refl) answer cut
      (
        record { whole = refl; known = inl refl },
        (record { whole = refl; known = inr (inl refl) }, tt),
      )
      refl
