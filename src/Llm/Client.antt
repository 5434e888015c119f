-- ===== src/Llm/Client.antt =====
-- internal/llm/client.go, provider.go and middleware.go: the client, its providers and the
-- middleware around them. What the logging middleware logs is left out.
pub mod Streaming
use dfgo.Prelude.{
  ℕ, String, Bool, true, false, str_eq, if◌then◌else◌, List, [], ◌∷◌, ◌++◌, Option, some, none,
}
use dfgo.Prelude.Dict.{Dict, get, put}
use dfgo.Prelude.Result.{Result, ok, err}
use dfgo.Prelude.Text.{ℤ, pos, append}
use dfgo.Llm.Message.{Request, Response}
use dfgo.Llm.Errors.{Error, nil, sdk, SdkKind}
use dfgo.Llm.Retry.{Caller, retry}
use dfgo.Llm.Stream.{Stream, complete_to_stream}

-- `ProviderAdapter`, and `StreamingProvider` where there is a `complete_stream`. A call changes the
-- state W of the world. A stream that is `none` is a panic, at a response that is nil.
pub record ProviderAdapter (F W : Type 0) : Type 0 where
  pub name : String
  pub complete : Request F → W → Result Error Response × W
  pub complete_stream : Option (Request F → W → Result Error (Option Stream) × W)

pub record RetryPolicy : Type 0 where
  pub max_retries : ℤ
  pub base_delay : ℤ
  pub max_delay : ℤ
  pub jitter : Bool

-- durations in milliseconds
abbrev pub default_retry_policy : RetryPolicy
default_retry_policy = record {
  max_retries = pos 3;
  base_delay = pos 500;
  max_delay = pos 30000;
  jitter = true;
}

abbrev pub Middleware : Type 0 → Type 0 → Type 0
Middleware F W = ProviderAdapter F W → ProviderAdapter F W

-- `CompleteToStream(resp, err), nil` behind a call of `Complete`
abbrev pub wrapped_stream :
    {W : Type 0} → Result Error Response × W → Result Error (Option Stream) × W
wrapped_stream (r, w) = (ok (complete_to_stream r), w)

module _ {F W : Type 0} where
  -- `loggingAdapter`: it passes on what the inner adapter returns.
  unfoldable pub logging_middleware : Middleware F W
  logging_middleware next = record {
    name = next.name;
    complete = λ req w. next.complete req w;
    complete_stream = some (λ req w. elim next.complete_stream [
      | none ↦ wrapped_stream (next.complete req w)
      | some stream ↦ stream req w
    ]);
  }

  -- `wait policy attempt`: the select on ctx.Done() and the delay
  module _ (wait : RetryPolicy → ℕ → W → Bool × W) where
    abbrev pub completing : RetryPolicy → ProviderAdapter F W → Request F → Caller W Response
    completing policy next req = record {
      call = next.complete req;
      wait = wait policy;
      aborted = "request aborted during retry";
    }

    abbrev pub streaming :
        RetryPolicy
        → (Request F → W → Result Error (Option Stream) × W)
        → Request F
        → Caller W (Option Stream)
    streaming policy stream req = record {
      call = stream req;
      wait = wait policy;
      aborted = "stream request aborted during retry";
    }

    unfoldable pub retry_middleware : RetryPolicy → Middleware F W
    retry_middleware policy next =
        let complete : Request F → W → Result Error Response × W =
          λ req w. retry (completing policy next req) policy.max_retries w in
        record {
          name = next.name;
          complete = complete;
          complete_stream = some (λ req w. elim next.complete_stream [
            | none ↦ wrapped_stream (complete req w)
            | some stream ↦ retry (streaming policy stream req) policy.max_retries w
          ]);
        }

-- The client's fields.
pub record Client (F W : Type 0) : Type 1 where
  pub providers : Dict (ProviderAdapter F W)
  pub default_prov : String
  pub middleware : List (Middleware F W)

module _ {F W : Type 0} where
  -- `RegisterProvider`, and `WithProvider` with the adapter's own name
  unfoldable pub register_provider : String → ProviderAdapter F W → Client F W → Client F W
  register_provider name adapter c = record c {
    providers = put c.providers name adapter;
    default_prov = if str_eq c.default_prov "" then name else c.default_prov;
  }

  unfoldable pub with_default_provider : String → Client F W → Client F W
  with_default_provider name c = record c { default_prov = name }

  unfoldable pub with_middleware : List (Middleware F W) → Client F W → Client F W
  with_middleware mw c = record c { middleware = c.middleware ++ mw }

  -- `NewClient` without options
  abbrev pub new_client : Client F W
  new_client = record { providers = []; default_prov = ""; middleware = [] }

  -- the first added middleware is outermost
  abbrev pub wrap : List (Middleware F W) → ProviderAdapter F W → ProviderAdapter F W
  wrap [] adapter = adapter
  wrap (m ∷ ms) adapter = m (wrap ms adapter)

  -- The start of `Complete` and `Stream`. `quote` is the verb %q.
  module _ (quote : String → String) where
    abbrev pub adapter_for : Client F W → Request F → Result Error (ProviderAdapter F W)
    adapter_for c req =
        let name = if str_eq req.provider "" then c.default_prov else req.provider in
        if str_eq name ""
        then err
            (sdk SdkKind.sdk_error "no provider specified and no default provider configured" nil)
        else elim (get c.providers name) [
          | none ↦ err (sdk SdkKind.sdk_error (append "unknown provider: " (quote name)) nil)
          | some adapter ↦ ok (wrap c.middleware adapter)
        ]

    unfoldable pub complete : Client F W → Request F → W → Result Error Response × W
    complete c req w = elim (adapter_for c req) [
      | err e ↦ (err e, w)
      | ok adapter ↦ adapter.complete req w
    ]

    unfoldable pub stream : Client F W → Request F → W → Result Error (Option Stream) × W
    stream c req w = elim (adapter_for c req) [
      | err e ↦ (err e, w)
      | ok adapter ↦ elim adapter.complete_stream [
        | some s ↦ s req w
        | none ↦ wrapped_stream (adapter.complete req w)
      ]
    ]
