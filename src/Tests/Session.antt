-- ===== src/Tests/Session.antt =====
-- Sessions of the agent with a model that answers by a script.
use dfgo.Prelude.{ℕ, zero, suc, false, [], ◌∷◌, some, none, ◌≡◌, refl, arith}
use dfgo.Prelude.Dict.{get}
use dfgo.Prelude.Result.{ok, err}
use dfgo.Prelude.Text.{pos, append}
use dfgo.Llm.Message.{Response, Role, text_part, message_of, message_text, message_tool_calls}
use dfgo.Llm.Errors.{Error, new_provider_error, nil, wrapped, is_retryable}
use dfgo.Agent.Message.{agent_to_llm_message, response_to_message}
use dfgo.Agent.Message.RoundTrip.{agent_to_llm_message-response_to_message}
use dfgo.Agent.Tool.{new_registry}
use dfgo.Agent.Session.{Config, World, State, SessionResult, new_session}
use dfgo.Agent.Session.Run.{run, turns}
use dfgo.Agent.Session.Turn.Kept.{IsSound, IsConversation, empty}
use dfgo.Agent.Session.Run.Laws.{run-IsConversation}
use dfgo.Agent.Session.Run.Outage.{IsDown, run_down}
use dfgo.Agent.Session.{receive, result, build_request}
use dfgo.Agent.Session.Turn.{
  turn, ask, call_tool, call_tools, watch, answer, inject, conclude, on_response, account,
  check_context_window,
}
use dfgo.Agent.Message.{user_message, steering_message}
use dfgo.Llm.Message.{text_message}
use dfgo.Agent.Tool.{tool_defs, execute, error_result}
use dfgo.Agent.Detector.{record_call, detect, last_first, new_detector}
use dfgo.Llm.Errors.{chain}
use dfgo.Tests.Llm.{hello, zero_usage}

abbrev bye : Response
bye = record hello { message = message_of Role.assistant (text_part "bye" ∷ []) }

-- The first answer calls a tool, the second does not.
abbrev scripted : World ℕ
scripted = record {
  W = ℕ;
  is_canceled = λ n. (false, n);
  complete = λ req n. elim n [ zero ↦ (ok bye, 0) | suc m ↦ (ok hello, m) ];
  stream = λ req n. (err nil, n);
  system_prompt = λ n. ("system", n);
  arrivals = λ n. (([], []), n);
  hash = λ s. s;
  is_full = λ tokens size. false;
  full_warning = λ tokens size. "";
  decimal = λ n. "n";
}

abbrev config : Config ℕ
config = record {
  model = "m";
  max_rounds = pos 5;
  temperature = none;
  max_tokens = none;
  streaming = false;
  reasoning_effort = "";
  enable_loop_detection = none;
  loop_detection_window = pos 0;
  context_window_size = pos 1000;
}

abbrev fresh : State scripted
fresh = new_session config new_registry 1

fresh-IsSound : IsSound fresh
fresh-IsSound = record { conversation = empty; queued = record { followup = tt; steering = tt } }

abbrev last : SessionResult × State scripted
last = elim (run config "hi" fresh) as (λ _. SessionResult × State scripted) [
  | some p ↦ p
  | none ↦ (
    record {
      messages = [];
      final_text = "";
      total_usage = zero_usage;
      rounds = 0;
      aborted = false;
      error = nil;
    },
    fresh,
  )
]

run-IsConversation_example : IsConversation last.0.messages
unfolding run turns turn ask build_request user_message receive steering_message call_tool
    call_tools watch answer inject conclude on_response account check_context_window
    response_to_message message_text message_tool_calls agent_to_llm_message text_message tool_defs
    execute error_result record_call detect last_first new_detector result get
run-IsConversation_example =
    run-IsConversation config "hi" fresh last.0 last.1 (omega arith) fresh-IsSound refl

rounds_made : last.0.rounds ≡ 2
unfolding run turns turn ask build_request user_message receive steering_message call_tool
    call_tools watch answer inject conclude on_response account check_context_window
    response_to_message message_text message_tool_calls agent_to_llm_message text_message tool_defs
    execute error_result record_call detect last_first new_detector result get
rounds_made = refl

agent_to_llm_message-response_to_message_example :
    (message_text (agent_to_llm_message (response_to_message hello)) ≡ message_text hello.message)
    × (message_tool_calls (agent_to_llm_message (response_to_message hello))
        ≡ message_tool_calls hello.message)
agent_to_llm_message-response_to_message_example = agent_to_llm_message-response_to_message hello

abbrev overload : Error
overload = new_provider_error "p" (pos 529) "overloaded" nil

abbrev silent : World ℕ
silent = record scripted { complete = λ req n. (err overload, n) }

silent-IsDown : IsDown silent overload
silent-IsDown = record { alive = λ v. refl; fails = λ req v. refl }

abbrev start : State silent
start = new_session config new_registry 0

run_down_example :
    (r : SessionResult) × (t : State silent) × (run config "hi" start ≡ some (r, t))
    × (r.rounds ≡ 3)
    × (r.aborted ≡ false)
    × (r.error
        ≡ wrapped (append "circuit breaker: " (append "n" " consecutive failures: ")) overload)
unfolding new_provider_error is_retryable chain
run_down_example = run_down overload silent-IsDown config refl "hi" start (omega arith) refl
