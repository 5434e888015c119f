-- ===== src/Llm/Provider/Anthropic/Content.antt =====
-- internal/llm/provider/anthropic.go: the content of a message, sent and read back.
use dfgo.Prelude.{String, List, [], ◌∷◌, ◌++◌, All, some, ◌≡◌, ◌≢◌, refl, sym, ap, ◌∙◌}
use dfgo.Llm.Message.{
  Role, ContentKind, ContentPart, ToolCallData, ThinkingData, text_part, tool_call_part, part_of,
  message_of,
}
use dfgo.Llm.Provider.Wire.{Block}
use dfgo.Llm.Provider.Anthropic.{
  Json, part_blocks, blocks_of, or_empty, content_to_blocks, parse_blocks,
}

-- The parts of an assistant's message.
pub data IsReply : ContentPart → Type 0 where
  said : (s : String) → IsReply (text_part s)
  called : (c : ToolCallData) → IsReply (tool_call_part c)
  thought :
      (t : ThinkingData) → IsReply (record (part_of ContentKind.thinking) { thinking = some t })

module _ (json : Json) where
  parse-part_blocks :
      {p : ContentPart}
      → IsReply p
      → (bs : List Block) → parse_blocks (part_blocks json p ++ bs) ≡ p ∷ parse_blocks bs
  parse-part_blocks (said s) bs = refl
  parse-part_blocks (called c) bs = refl
  parse-part_blocks (thought t) bs = refl

  parse-blocks_of : (ps : List ContentPart) → All IsReply ps → parse_blocks (blocks_of json ps) ≡ ps
  parse-blocks_of [] h = refl
  parse-blocks_of (p ∷ ps) h =
      parse-part_blocks h.0 (blocks_of json ps) ∙ ap (λ l. p ∷ l) (parse-blocks_of ps h.1)

  parse-or_empty :
      (bs : List Block) → parse_blocks bs ≢ [] → parse_blocks (or_empty bs) ≡ parse_blocks bs
  parse-or_empty [] h = absurd (h refl)
  parse-or_empty (b ∷ bs) h = refl

  -- The content of a message of text, tool calls and thinking with its signatures, not empty, that
  -- is sent to the API as blocks is read from a response with these blocks as it was.
  pub parse_blocks-content_to_blocks :
      (ps : List ContentPart)
      → All IsReply ps
      → ps ≢ []
      → parse_blocks (content_to_blocks json (message_of Role.assistant ps)) ≡ ps
  unfolding content_to_blocks
  parse_blocks-content_to_blocks ps h some_part =
      let same = parse-blocks_of ps h in
      parse-or_empty (blocks_of json ps) (λ e. some_part (sym same ∙ e)) ∙ same
