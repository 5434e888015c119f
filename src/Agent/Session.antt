-- ===== src/Agent/Session.antt =====
-- internal/agent/session.go, config.go and result.go: the state of a session and what runs around
-- its loop. What other goroutines do to the session by `Steer` and `FollowUp` is part of the world:
-- it arrives when the session looks at its queues.
pub mod Turn
pub mod Run
use dfgo.Prelude.{ℕ, zero, suc, ◌+◌, String, Bool, List, [], ◌∷◌, ◌++◌, map, Option, some, none}
use dfgo.Prelude.Result.{Result, ok, err}
use dfgo.Prelude.Text.{ℤ, pos, negsuc, append}
use dfgo.Llm.Message.{Request, Response, Usage, text_message}
use dfgo.Llm.Message as Llm
use dfgo.Llm.Errors.{Error}
use dfgo.Llm.Stream.{Stream}
use dfgo.Agent.Detector.{Detector, new_detector}
use dfgo.Agent.Message.{Message, Role, user_message, steering_message, agent_to_llm_message}
use dfgo.Agent.Tool.{Registry, tool_defs}

-- Events with the data that tells them apart.
pub data Event : Type 0 where
  session_start : String → Event
  session_end turn_start : ℕ → Event
  turn_end : ℕ → String → Event
  llm_request : String → ℕ → Event
  llm_response : String → String → Event
  llm_error : Error → Event
  tool_start tool_end : String → String → Event
  tool_error : String → String → Event
  steering_event loop_detected abort_event : String → Event
  context_truncate : ℕ → ℤ → Event
  llm_stream_start : String → String → Event
  llm_chunk : ℕ → String → Event
  llm_stream_end : String → Event

-- The fields of `Config` that the loop reads, `ContextWindowSize` of its profile among them.
pub record Config (F : Type 0) : Type 0 where
  pub model : String
  pub max_rounds : ℤ
  pub temperature : Option F
  pub max_tokens : Option ℤ
  pub streaming : Bool
  pub reasoning_effort : String
  pub enable_loop_detection : Option Bool
  pub loop_detection_window : ℤ
  pub context_window_size : ℤ

-- What is outside: the context, the client, the prompt builder with the file system it reads, the
-- callers of `Steer` and `FollowUp`, and floats. `W` is its state.
pub record World (F : Type 0) : Type 1 where
  pub W : Type 0
  -- ctx.Err() is not nil
  pub is_canceled : W → Bool × W
  -- never a response and an error that are both nil, at which `Run` panics
  pub complete : Request F → W → Result Error Response × W
  pub stream : Request F → W → Result Error Stream × W
  -- `pb.Build()` of `buildRequest`
  pub system_prompt : W → String × W
  -- what has been given to `Steer` and to `FollowUp` since the last look
  pub arrivals : W → (List String × List String) × W
  -- the signature of a tool call
  pub hash : String → String
  -- input tokens over the window's size is at least 0.80, and as a warning
  pub is_full : ℕ → ℤ → Bool
  pub full_warning : ℕ → ℤ → String
  -- the verb %d
  pub decimal : ℕ → String

-- A session, with the variables of `Run` that its loop changes.
pub record State {F : Type 0} (w : World F) : Type 0 where
  pub registry : Registry w.W
  pub detector : Detector
  pub messages : List Message
  pub steering : List Message
  pub followup : List Message
  pub usage : Usage
  pub rounds : ℕ
  pub consecutive_failures : ℕ
  pub last_text : String
  pub events : List Event
  pub world : w.W

-- `agent.Result`; the error is nil where there is none
pub record SessionResult : Type 0 where
  pub messages : List Message
  pub final_text : String
  pub total_usage : Usage
  pub rounds : ℕ
  pub aborted : Bool
  pub error : Error

abbrev pub no_usage : Usage
no_usage = record {
  input_tokens = 0;
  output_tokens = 0;
  total_tokens = 0;
  reasoning_tokens = 0;
  cache_read_tokens = 0;
  cache_write_tokens = 0;
}

abbrev pub usage_plus : Usage → Usage → Usage
usage_plus a b = record {
  input_tokens = a.input_tokens + b.input_tokens;
  output_tokens = a.output_tokens + b.output_tokens;
  total_tokens = a.total_tokens + b.total_tokens;
  reasoning_tokens = a.reasoning_tokens + b.reasoning_tokens;
  cache_read_tokens = a.cache_read_tokens + b.cache_read_tokens;
  cache_write_tokens = a.cache_write_tokens + b.cache_write_tokens;
}

-- 200 for a limit that is not positive
abbrev pub round_limit : ℤ → ℕ
round_limit (pos zero) = 200
round_limit (pos (suc n)) = suc n
round_limit (negsuc n) = 200

abbrev pub loop_window : ℤ → ℤ
loop_window (pos zero) = pos 10
loop_window (pos (suc n)) = pos (suc n)
loop_window (negsuc n) = pos 10

abbrev pub loop_enabled : Option Bool → Bool
loop_enabled none = Bool.true
loop_enabled (some b) = b

module _ {F : Type 0} {w : World F} where
  abbrev pub new_session : Config F → Registry w.W → w.W → State w
  new_session cfg registry world = record {
    registry = registry;
    detector = new_detector (loop_window cfg.loop_detection_window);
    messages = [];
    steering = [];
    followup = [];
    usage = no_usage;
    rounds = 0;
    consecutive_failures = 0;
    last_text = "";
    events = [];
    world = world;
  }

  abbrev pub emit : Event → State w → State w
  emit e s = record s { events = s.events ++ e ∷ [] }

  unfoldable pub steer : String → State w → State w
  steer content s = record s { steering = s.steering ++ steering_message content ∷ [] }

  unfoldable pub follow_up : String → State w → State w
  follow_up content s = record s { followup = s.followup ++ user_message content ∷ [] }

  abbrev pub say : Message → State w → State w
  say m s = record s { messages = s.messages ++ m ∷ [] }

  -- the calls of `Steer` and `FollowUp` that have come in
  unfoldable pub receive : State w → State w
  receive s =
      let ((steers, follows), world) = w.arrivals s.world in
      record s {
        steering = s.steering ++ map steering_message steers;
        followup = s.followup ++ map user_message follows;
        world = world;
      }

  unfoldable pub build_request : Config F → State w → Request F × State w
  build_request cfg s =
      let (prompt, world) = w.system_prompt s.world in
      (
        record {
          model = cfg.model;
          messages = text_message Llm.Role.system prompt ∷ map agent_to_llm_message s.messages;
          provider = "";
          tools = tool_defs s.registry;
          temperature = cfg.temperature;
          max_tokens = cfg.max_tokens;
          reasoning_effort = cfg.reasoning_effort;
        },
        record s { world = world },
      )

  unfoldable pub result : String → Bool → Error → State w → SessionResult
  result text aborted error s = record {
    messages = s.messages;
    final_text = text;
    total_usage = s.usage;
    rounds = s.rounds;
    aborted = aborted;
    error = error;
  }
