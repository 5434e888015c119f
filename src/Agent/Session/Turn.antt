-- ===== src/Agent/Session/Turn.antt =====
-- internal/agent/session.go: one turn of the loop in `Run`.
pub mod Quiet
pub mod Tools
pub mod Kept
pub mod Ends
use dfgo.Prelude.{
  ℕ, zero, suc, String, Bool, true, false, str_eq, leb, if◌then◌else◌, List, [], ◌∷◌, ◌++◌, length,
  Option, some, none,
}
use dfgo.Prelude.Result.{Result, ok, err}
use dfgo.Prelude.Text.{ℤ, pos, negsuc, append}
use dfgo.Llm.Message.{Request, Response, ToolCallData, message_text, message_tool_calls}
use dfgo.Llm.Errors.{Error, nil, wrapped, is_retryable}
use dfgo.Llm.Stream.{StreamEvent, StreamEventType, read_events, stream_result}
use dfgo.Agent.Detector.{record_call}
use dfgo.Agent.Message.{Message, tool_message, response_to_message}
use dfgo.Agent.Tool as Tool
use dfgo.Agent.Tool.{error_result}
use dfgo.Agent.Session.{
  Config, World, State, Event, emit, steer, say, receive, build_request, usage_plus, round_limit,
  loop_enabled,
}

-- How a turn ends: `continue`, or `Run` returns, aborted or not, with an error or nil.
pub data Next : Type 0 where
  again : Next
  done : Bool → Error → Next

abbrev pub steering_events : List Message → List Event
steering_events [] = []
steering_events (m ∷ ms) = Event.steering_event m.content ∷ steering_events ms

module _ {F : Type 0} {w : World F} where
  abbrev pub stream_event : StreamEvent → StreamEventType → State w → State w
  stream_event e StreamEventType.response_meta s =
      emit (Event.llm_stream_start e.response_id e.model) s
  stream_event e StreamEventType.content_delta s = emit (Event.llm_chunk e.index e.text) s
  stream_event e _ s = s

  abbrev pub stream_events : List StreamEvent → State w → State w
  stream_events [] s = s
  stream_events (e ∷ es) s = stream_events es (stream_event e e.type s)

  abbrev pub streamed : Result Error Response → State w → Result Error Response × State w
  streamed (err e) s = (err e, s)
  streamed (ok resp) s = (ok resp, emit (Event.llm_stream_end resp.finish_reason) s)

  unfoldable pub stream_turn : Request F → State w → Result Error Response × State w
  unfolding read_events stream_result
  stream_turn req s =
      let (r, world) = w.stream req s.world in
      let s1 = record s { world = world } in
      elim r [
        | err e ↦ (err e, s1)
        | ok st ↦ streamed (stream_result st) (stream_events (read_events st.events).0 s1)
      ]

  abbrev pub call_llm : Config F → Request F → State w → Result Error Response × State w
  call_llm cfg req s =
      let (r, world) = w.complete req s.world in
      if cfg.streaming then stream_turn req s else (r, record s { world = world })

  -- The branch of `Run` for an error of the call.
  unfoldable pub on_error : Error → State w → Next × State w
  on_error e s =
      let failures = suc s.consecutive_failures in
      let s1 = record (emit (Event.llm_error e) s) { consecutive_failures = failures } in
      if leb 3 failures
      then (
        done false (
            wrapped
              (append "circuit breaker: " (append (w.decimal failures) " consecutive failures: "))
              e),
        s1,
      )
      else if is_retryable e
      then (again, s1)
      else (done false e, s1)

  -- The response is counted, and kept as a message.
  unfoldable pub account : Config F → Response → State w → State w
  account cfg resp s =
      let text = message_text resp.message in
      let s1 = emit (Event.llm_response cfg.model resp.finish_reason) s in
      record s1 {
        consecutive_failures = 0;
        usage = usage_plus s.usage resp.usage;
        messages = s.messages ++ response_to_message resp ∷ [];
        last_text = if str_eq text "" then s.last_text else text;
      }

  abbrev pub warn_if : Bool → ℕ → ℤ → State w → State w
  warn_if full tokens size s =
      if full
      then steer (w.full_warning tokens size)
          (receive (emit (Event.context_truncate tokens size) s))
      else s

  unfoldable pub check_context_window : Config F → Response → State w → State w
  check_context_window cfg resp s =
      let tokens = resp.usage.input_tokens in
      elim cfg.context_window_size [
        | pos zero ↦ s
        | pos (suc n) ↦ warn_if (w.is_full tokens (pos (suc n))) tokens (pos (suc n)) s
        | negsuc n ↦ s
      ]

  abbrev pub warned : Bool → String → State w → State w
  warned looping tool s =
      if looping
      then steer "WARNING: Repetitive tool call pattern detected. Please try a different approach."
          (emit (Event.loop_detected tool) s)
      else s

  unfoldable pub watch : Config F → ToolCallData → State w → State w
  watch cfg tc s =
      let (looping, detector) = record_call w.hash s.detector tc.name tc.arguments in
      if loop_enabled cfg.enable_loop_detection
      then warned looping tc.name (record s { detector = detector })
      else s

  unfoldable pub answer : ToolCallData → Tool.Result → State w → State w
  answer tc r s =
      say
        (tool_message (record {
          tool_call_id = tc.id;
          content = r.content;
          full_output = r.full_output;
          is_error = r.is_error;
        }))
        (emit (Event.tool_end tc.name tc.id) s)

  abbrev pub answer_or_error : ToolCallData → Result String Tool.Result → State w → State w
  answer_or_error tc (ok r) s = answer tc r s
  answer_or_error tc (err m) s =
      answer tc (error_result (append "tool execution error: " m))
        (emit (Event.tool_error tc.name m) s)

  unfoldable pub call_tool : Config F → ToolCallData → State w → State w
  call_tool cfg tc s =
      let s1 = watch cfg tc (receive (emit (Event.tool_start tc.name tc.id) s)) in
      let (r, world) = Tool.execute s1.registry tc.name tc.arguments s1.world in
      answer_or_error tc r (record s1 { world = world })

  unfoldable pub call_tools : Config F → List ToolCallData → State w → State w
  call_tools cfg [] s = s
  call_tools cfg (tc ∷ tcs) s = call_tools cfg tcs (call_tool cfg tc s)

  -- the pending steering messages
  unfoldable pub inject : State w → State w
  inject s = record s {
    events = s.events ++ steering_events s.steering;
    messages = s.messages ++ s.steering;
    steering = [];
  }

  abbrev pub next_message : List Message → State w → Next × State w
  next_message [] s = (done false nil, emit (Event.turn_end s.rounds "natural") s)
  next_message (m ∷ rest) s =
      (again, say m (emit (Event.turn_end s.rounds "followup") (record s { followup = rest })))

  -- The branch of `Run` for a response without tool calls.
  unfoldable pub conclude : State w → Next × State w
  conclude s = let s1 = receive s in next_message s1.followup s1

  abbrev pub act : Config F → List ToolCallData → State w → Next × State w
  act cfg [] s = conclude s
  act cfg (tc ∷ tcs) s =
      let s1 = inject (receive (call_tools cfg (tc ∷ tcs) s)) in
      (again, emit (Event.turn_end s1.rounds "") s1)

  unfoldable pub on_response : Config F → Response → State w → Next × State w
  on_response cfg resp s =
      act cfg (message_tool_calls resp.message) (check_context_window cfg resp (account cfg resp s))

  abbrev pub after_call : Config F → Result Error Response × State w → Next × State w
  after_call cfg (ok resp, s) = on_response cfg resp s
  after_call cfg (err e, s) = on_error e s

  unfoldable pub ask : Config F → State w → Next × State w
  unfolding build_request stream_turn
  ask cfg s =
      let (req, s1) = build_request cfg s in
      after_call cfg
        (call_llm cfg req (emit (Event.llm_request req.model (length req.messages)) s1))

  unfoldable pub turn : Config F → State w → Next × State w
  turn cfg s =
      let (canceled, world) = w.is_canceled s.world in
      let s1 = record s { world = world } in
      let rounds = suc s.rounds in
      if canceled
      then (done true nil, emit (Event.abort_event "context cancelled") s1)
      else if leb (round_limit cfg.max_rounds) s.rounds
      then (done true nil, emit (Event.abort_event "max rounds exceeded") s1)
      else ask cfg (record (emit (Event.turn_start rounds) s1) { rounds = rounds })
