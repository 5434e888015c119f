-- ===== src/Llm/Provider/Anthropic/Caching.antt =====
-- internal/llm/provider/anthropic.go: the cache breakpoints of a request.
use dfgo.Prelude.{
  ℕ, ◌+◌, ◌≤◌, Bool, true, false, List, [], ◌∷◌, ◌++◌, map, Option, some, none, ◌≡◌, refl, inl, inr,
  Bool-cases, arith,
}
use dfgo.Llm.Message.{ContentPart, Message, ToolDef, Request}
use dfgo.Llm.Provider.Wire.{Block, WireMessage, WireTool, WireRequest}
use dfgo.Llm.Provider.Anthropic.{
  Json, part_blocks, blocks_of, or_empty, content_to_blocks, system_parts, other_messages,
  is_system, wire_message, wire_tool, mark_last_block, mark_last_tool, mark_json, any_user, is_user,
  mark_last_user, inject_cache_breakpoints, build_request, marked_system, system_json,
}

abbrev pub one_if : Bool → ℕ
one_if true = 1
one_if false = 0

abbrev pub block_marks : List Block → ℕ
block_marks [] = 0
block_marks (b ∷ bs) = one_if b.cache_control + block_marks bs

abbrev pub tool_marks : List WireTool → ℕ
tool_marks [] = 0
tool_marks (t ∷ ts) = one_if t.cache_control + tool_marks ts

mark_last_block-marks :
    (bs : List Block) → block_marks bs ≡ 0 → block_marks (mark_last_block bs) ≤ 1
mark_last_block-marks [] h = omega arith
mark_last_block-marks (b ∷ []) h = omega arith
mark_last_block-marks (b ∷ c ∷ bs) h = ground (arith, mark_last_block-marks (c ∷ bs))

mark_last_tool-marks : (ts : List WireTool) → tool_marks ts ≡ 0 → tool_marks (mark_last_tool ts) ≤ 1
mark_last_tool-marks [] h = omega arith
mark_last_tool-marks (t ∷ []) h = omega arith
mark_last_tool-marks (t ∷ u ∷ ts) h = ground (arith, mark_last_tool-marks (u ∷ ts))

wire_tools-unmarked : (ts : List ToolDef) → tool_marks (map wire_tool ts) ≡ 0
wire_tools-unmarked [] = refl
wire_tools-unmarked (t ∷ ts) = omega (arith, wire_tools-unmarked ts)

system_parts-unmarked : (ms : List Message) → block_marks (system_parts ms) ≡ 0
system_parts-unmarked [] = refl
system_parts-unmarked (m ∷ ms) = elim (Bool-cases (is_system m)) [
  | inl e ↦ rw (system_parts, e) (omega (arith, system_parts-unmarked ms))
  | inr e ↦ rw (system_parts, e) (system_parts-unmarked ms)
]

module _ (json : Json) where
  open json use {J, marshal, unmarshal}

  -- What is marked in a list of blocks in JSON.
  abbrev pub json_marks : J → ℕ
  json_marks s = elim (unmarshal s) [ none ↦ 0 | some bs ↦ block_marks bs ]

  abbrev pub message_marks : List (WireMessage J) → ℕ
  message_marks [] = 0
  message_marks (m ∷ ms) = json_marks m.content + message_marks ms

  abbrev pub system_marks : Option J → ℕ
  system_marks none = 0
  system_marks (some s) = json_marks s

  -- The cache breakpoints of a request.
  abbrev pub marks : {F : Type 0} → WireRequest J F → ℕ
  marks ar = system_marks ar.system + (tool_marks ar.tools + message_marks ar.messages)

  append-marks : (bs cs : List Block) → block_marks (bs ++ cs) ≡ block_marks bs + block_marks cs
  append-marks [] cs = omega arith
  append-marks (b ∷ bs) cs = omega (arith, append-marks bs cs)

  part_blocks-unmarked : (p : ContentPart) → block_marks (part_blocks json p) ≡ 0
  part_blocks-unmarked p = ground arith

  blocks_of-unmarked : (ps : List ContentPart) → block_marks (blocks_of json ps) ≡ 0
  blocks_of-unmarked [] = refl
  blocks_of-unmarked (p ∷ ps) = omega (
    arith,
    append-marks (part_blocks json p) (blocks_of json ps),
    part_blocks-unmarked p,
    blocks_of-unmarked ps,
  )

  or_empty-unmarked : (bs : List Block) → block_marks bs ≡ 0 → block_marks (or_empty bs) ≡ 0
  or_empty-unmarked [] h = refl
  or_empty-unmarked (b ∷ bs) h = h

  module _ (round_trip : (bs : List Block) → unmarshal (marshal bs) ≡ some bs) where
    marshal-marks : (bs : List Block) → json_marks (marshal bs) ≡ block_marks bs
    marshal-marks bs = rw (json_marks, round_trip bs) refl

    mark_json-marshal :
        (bs : List Block) → mark_json json (marshal bs) ≡ marshal (mark_last_block bs)
    mark_json-marshal [] = rw (mark_json, round_trip []) refl
    mark_json-marshal (b ∷ bs) = rw (mark_json, round_trip (b ∷ bs)) refl

    mark_json-marks :
        (bs : List Block) → block_marks bs ≡ 0 → json_marks (mark_json json (marshal bs)) ≤ 1
    mark_json-marks bs h =
        rw (mark_json-marshal bs, marshal-marks (mark_last_block bs)) (mark_last_block-marks bs h)

    blocks-unmarked : (m : Message) → block_marks (content_to_blocks json m) ≡ 0
    unfolding content_to_blocks
    blocks-unmarked m = or_empty-unmarked (blocks_of json m.content) (blocks_of-unmarked m.content)

    messages-unmarked : (ms : List Message) → message_marks (map (wire_message json) ms) ≡ 0
    messages-unmarked [] = refl
    messages-unmarked (m ∷ ms) =
        omega
          (arith, marshal-marks (content_to_blocks json m), blocks-unmarked m, messages-unmarked ms)

    mark_last_user-marks :
        (ms : List Message) → message_marks (mark_last_user json (map (wire_message json) ms)) ≤ 1
    mark_last_user-marks [] = omega arith
    mark_last_user-marks (m ∷ ms) =
        let here = marshal-marks (content_to_blocks json m) in
        let clean = blocks-unmarked m in
        let later = messages-unmarked ms in
        elim (Bool-cases (any_user (map (wire_message json) ms))) [
          | inl e ↦ rw (mark_last_user, e) (omega (arith, here, clean, mark_last_user-marks ms))
          | inr e ↦ elim (Bool-cases (is_user (wire_message json m))) [
            | inl u ↦
                rw (mark_last_user, e, u)
                  (omega (arith, later, mark_json-marks (content_to_blocks json m) clean))
            | inr u ↦ rw (mark_last_user, e, u) (omega (arith, here, clean, later))
          ]
        ]

    system-marks :
        (bs : List Block)
        → block_marks bs ≡ 0
        → system_marks (marked_system json (system_json json bs)) ≤ 1
    system-marks [] h = omega arith
    system-marks (b ∷ bs) h = mark_json-marks (b ∷ bs) h

    -- Where JSON text that is written from blocks reads back as those blocks, a request has at most
    -- three cache breakpoints, however many messages and tools it
    -- has: one on the system prompt, one on the tools and one on the messages.
    pub build_request-marks : {F : Type 0} (req : Request F) → marks (build_request json req) ≤ 3
    unfolding build_request inject_cache_breakpoints
    build_request-marks req = omega (
      arith,
      system-marks (system_parts req.messages) (system_parts-unmarked req.messages),
      mark_last_tool-marks (map wire_tool req.tools) (wire_tools-unmarked req.tools),
      mark_last_user-marks (other_messages req.messages),
    )
