-- ===== src/Llm/Stream/Fallback.antt =====
-- internal/llm/stream.go: a response that is wrapped as a stream, read back.
use dfgo.Prelude.{
  ℕ, suc, ◌*◌, ◌≤◌, ◌≢◌, List, [], ◌∷◌, ◌++◌, length, length-append, some, ◌≡◌, refl, ap, ◌∙◌,
  ++_assoc, arith,
}
use dfgo.Prelude.Result.{Result, ok, err}
use dfgo.Llm.Message.{ContentPart, Response}
use dfgo.Llm.Errors.{Error, nil, other, wrapped, api, sdk}
use dfgo.Llm.Stream.{
  Stream, StreamEvent, part_events, content_events, complete_to_stream, usage_of, read_events,
  stream_result,
}

part_events-length : (i : ℕ) (p : ContentPart) → length (part_events i p) ≤ 3
part_events-length i p = ground arith

content_events-length :
    (i : ℕ) (ps : List ContentPart) → length (content_events i ps) ≤ length ps * 3
content_events-length i [] = omega arith
content_events-length i (p ∷ ps) = omega (
  arith,
  length-append (part_events i p) (content_events (suc i) ps),
  part_events-length i p,
  content_events-length (suc i) ps,
)

-- Reading on past the events of a part.
read-part_events :
    (i : ℕ) (p : ContentPart) (rest : List StreamEvent)
    → (read_events (part_events i p ++ rest)).1 ≡ (read_events rest).1
unfolding read_events
read-part_events i p rest = ground arith

read-content_events :
    (i : ℕ) (ps : List ContentPart) (rest : List StreamEvent)
    → (read_events (content_events i ps ++ rest)).1 ≡ (read_events rest).1
read-content_events i [] rest = refl
read-content_events i (p ∷ ps) rest =
    ap (λ es. (read_events es).1) (++_assoc (part_events i p) (content_events (suc i) ps) rest)
    ∙ read-part_events i p (content_events (suc i) ps ++ rest)
    ∙ read-content_events (suc i) ps rest

-- A response, or an error that is not nil, wrapped as a stream: the wrapping succeeds, its events
-- fit into the channel's buffer, so that no send blocks before there is a reader, and reading it
-- to the end gives that response, or that error, again.
pub complete_to_stream-stream_result :
    (r : Result Error Response)
    → r ≢ err nil
    → (s : Stream) × (complete_to_stream r ≡ some s)
      × (length s.events ≤ s.capacity)
      × (stream_result s ≡ r)
unfolding complete_to_stream stream_result read_events
complete_to_stream-stream_result (ok resp) h = (
  _,
  refl,
  omega (
    arith,
    length-append (content_events 0 resp.message.content) (usage_of resp ∷ []),
    content_events-length 0 resp.message.content,
  ),
  rw (stream_result, read-content_events 0 resp.message.content (usage_of resp ∷ [])) refl,
)
complete_to_stream-stream_result (err nil) h = absurd (h refl)
complete_to_stream-stream_result (err (other m)) h = (_, refl, omega arith, refl)
complete_to_stream-stream_result (err (wrapped m e)) h = (_, refl, omega arith, refl)
complete_to_stream-stream_result (err (api k d e)) h = (_, refl, omega arith, refl)
complete_to_stream-stream_result (err (sdk k m e)) h = (_, refl, omega arith, refl)
