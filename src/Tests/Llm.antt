-- ===== src/Tests/Llm.antt =====
-- The language model client at concrete errors, providers and responses.
use dfgo.Prelude.{
  ℕ, zero, suc, String, str_eq, inl, inr, Bool-cases, Bool, true, ◌||◌, [], ◌∷◌, some, none, ◌≡◌,
  ◌≤◌, length, refl,
}
use dfgo.Prelude.Dict.{get}
use dfgo.Prelude.Result.{ok, err}
use dfgo.Prelude.Text.{pos}
use dfgo.Llm.Message.{Role, Request, Response, Usage, text_part, tool_call_part, message_of}
use dfgo.Llm.Errors.{Error, nil, other, new_provider_error, is_retryable, is_code, at_least, chain}
use dfgo.Llm.Errors.Retryable.{is_retryable-new_provider_error}
use dfgo.Llm.Retry.{Caller, retry}
use dfgo.Llm.Retry.Attempts.{logged, IsRetried, retry-IsRetried}
use dfgo.Llm.Stream.{Stream, complete_to_stream, stream_result}
use dfgo.Llm.Stream.Fallback.{complete_to_stream-stream_result}
use dfgo.Llm.Client.{
  ProviderAdapter, RetryPolicy, Client, default_retry_policy, retry_middleware, logging_middleware,
  complete, stream,
}
use dfgo.Llm.Sse.{trim_line, all_events}
use dfgo.Llm.Sse.RoundTrip.{Message, text_of, scanned, all_events-text_of}
use dfgo.Llm.Client.Streaming.{counterpart, IsAnswering, read_stream, stream-complete}

is_retryable-new_provider_error_example :
    is_retryable (new_provider_error "openai" (pos 503) "overloaded" (other "eof"))
    ≡ (is_code (pos 503) 429 || at_least 500 (pos 503))
unfolding chain
is_retryable-new_provider_error_example =
    is_retryable-new_provider_error "openai" (pos 503) "overloaded" (other "eof") (
      record { provider = refl; rate_limit = refl; server = refl; network = refl; timeout = refl },
      tt,
    )

abbrev pub zero_usage : Usage
zero_usage = record {
  input_tokens = 3;
  output_tokens = 2;
  total_tokens = 5;
  reasoning_tokens = 0;
  cache_read_tokens = 0;
  cache_write_tokens = 0;
}

abbrev pub hello : Response
hello = record {
  id = "r1";
  model = "m";
  provider = "p";
  message = message_of Role.assistant (
      text_part "hello"
      ∷ tool_call_part (record { id = "t1"; name = "shell"; arguments = "{}" })
      ∷ []);
  finish_reason = "stop";
  usage = zero_usage;
  raw = "";
}

abbrev busy : Error
busy = new_provider_error "p" (pos 429) "slow down" nil

-- fails twice, and then answers
abbrev flaky : Caller ℕ Response
flaky = record {
  call = λ n. elim n [ zero ↦ (ok hello, 0) | suc m ↦ (err busy, m) ];
  wait = λ attempt n. (true, n);
  aborted = "aborted";
}

retry-IsRetried_example :
    let (r, s) = retry (logged flaky) (pos 3) ([], 2) in IsRetried 3 "aborted" 0 [] s.0 r
retry-IsRetried_example = retry-IsRetried flaky 3 [] 2

complete_to_stream-stream_result_example :
    (s : Stream) × (complete_to_stream (ok hello) ≡ some s)
    × (length s.events ≤ s.capacity)
    × (stream_result s ≡ ok hello)
complete_to_stream-stream_result_example = complete_to_stream-stream_result (ok hello) (λ e. cc)

abbrev fixed : ProviderAdapter ℕ ℕ
fixed = record {
  name = "p";
  complete = λ req n. elim n [ zero ↦ (ok hello, 0) | suc m ↦ (err (other "down"), m) ];
  complete_stream = none;
}

fixed-IsAnswering : IsAnswering fixed
fixed-IsAnswering req zero = λ e. cc
fixed-IsAnswering req (suc n) = λ e. cc

abbrev patient : RetryPolicy → ℕ → ℕ → Bool × ℕ
patient policy attempt n = (true, n)

abbrev client : Client ℕ ℕ
client = record {
  providers = ("p", fixed) ∷ [];
  default_prov = "p";
  middleware =
      logging_middleware ∷ retry_middleware patient default_retry_policy ∷ logging_middleware ∷ [];
}

only_fixed :
    (name : String) (a : ProviderAdapter ℕ ℕ)
    → get client.providers name ≡ some a
    → IsAnswering a × (a.complete_stream ≡ none)
unfolding get
only_fixed name a h = elim (Bool-cases (str_eq "p" name)) [
  | inl e ↦ let same : fixed ≡ a = cc (rw e at h) in rw (← same) (fixed-IsAnswering, refl)
  | inr e ↦ absurd (cc (rw e at h))
]

abbrev question : Request ℕ
question = record {
  model = "m";
  messages = [];
  provider = "";
  tools = [];
  temperature = none;
  max_tokens = none;
  reasoning_effort = "";
}

abbrev bare : String → String
bare s = s

stream-complete_example :
    let (r, n) = complete bare (counterpart 1 1 client) question 2 in
    read_stream (stream bare client question 2) ≡ (some r, n)
stream-complete_example =
    stream-complete patient bare client 1 1 3 default_retry_policy refl refl only_fixed question 2

abbrev first_message : Message
first_message = record { event = "ping"; data_lines = "a" ∷ "b" ∷ []; id = "" }

abbrev second_message : Message
second_message = record { event = "message_stop"; data_lines = "{}" ∷ []; id = "7" }

all_events-text_of_example :
    all_events true 3 (text_of (first_message ∷ second_message ∷ []))
    ≡ scanned first_message ∷ scanned second_message ∷ []
unfolding trim_line
all_events-text_of_example = all_events-text_of true (first_message ∷ second_message ∷ []) (
  record { event = refl; lines = (refl, (refl, tt)); id = refl },
  (record { event = refl; lines = (refl, tt); id = refl }, tt),
)
