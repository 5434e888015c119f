-- ===== src/Llm/Client/Streaming.antt =====
-- internal/llm/client.go and middleware.go: a stream from a provider that does not stream.
use dfgo.Prelude.{
  ℕ, zero, suc, String, str_eq, Bool, if◌then◌else◌, List, [], ◌∷◌, ◌++◌, Option, some, none, ◌≡◌,
  ◌≢◌, refl, sym, ap, ◌∙◌, ◌⊎◌, inl, inr, Bool-cases, Option-cases,
}
use mathlib.Core.Path.{subst}
use dfgo.Prelude.Dict.{get}
use dfgo.Prelude.Result.{Result, ok, err, Result-cases}
use dfgo.Prelude.Text.{ℤ, pos, append}
use dfgo.Llm.Message.{Request, Response}
use dfgo.Llm.Errors.{Error, nil, sdk, SdkKind, is_retryable}
use dfgo.Llm.Retry.{Caller, retry, attempts}
use dfgo.Llm.Stream.{Stream, stream_result, complete_to_stream}
use dfgo.Llm.Stream.Fallback.{complete_to_stream-stream_result}
use dfgo.Llm.Client.{
  ProviderAdapter, RetryPolicy, Middleware, Client, wrapped_stream, logging_middleware,
  retry_middleware, completing, streaming, wrap, adapter_for, complete, stream,
}

-- What the reader of a stream is left with; `none` is a panic.
abbrev pub read_stream :
    {W : Type 0} → Result Error (Option Stream) × W → Option (Result Error Response) × W
read_stream (err e, w) = (some (err e), w)
read_stream (ok none, w) = (none, w)
read_stream (ok (some s), w) = (some (stream_result s), w)

read-wrapped_stream :
    {W : Type 0} (r : Result Error Response) (w : W)
    → r ≢ err nil
    → read_stream (wrapped_stream (r, w)) ≡ (some r, w)
read-wrapped_stream r w h =
    let (s, wrapped, fits, same) = complete_to_stream-stream_result r h in rw (wrapped, same) refl

attempts-ne_nil :
    {W A : Type 0} (c : Caller W A)
    → ((w : W) → (c.call w).0 ≢ err nil)
    → (left attempt : ℕ) (last : Error) (w : W) → (attempts c (suc left) attempt last w).0 ≢ err nil
unfolding attempts
attempts-ne_nil c h zero attempt last w = elim (Result-cases (c.call w).0) [
  | inl (a, p) ↦ rw (attempts, p) (λ q. cc)
  | inr (e, p) ↦
      let real : err e ≢ err nil = rw p at (h w) in
      elim (Bool-cases (is_retryable e)) [
        | inl worth ↦ rw (attempts, p, worth) real
        | inr lost ↦ rw (attempts, p, lost) real
      ]
]
attempts-ne_nil c h (suc left) attempt last w = elim (Result-cases (c.call w).0) [
  | inl (a, p) ↦ rw (attempts, p) (λ q. cc)
  | inr (e, p) ↦
      let real : err e ≢ err nil = rw p at (h w) in
      elim (Bool-cases (is_retryable e)) [
        | inl worth ↦ elim (Bool-cases (c.wait attempt (c.call w).1).0) [
          | inl elapsed ↦
              rw (attempts, p, worth, elapsed)
                (attempts-ne_nil c h left (suc attempt) e (c.wait attempt (c.call w).1).1)
          | inr ended ↦ rw (attempts, p, worth, ended) (λ q. cc)
        ]
        | inr lost ↦ rw (attempts, p, lost) real
      ]
]

retry-ne_nil :
    {W A : Type 0} (c : Caller W A)
    → ((w : W) → (c.call w).0 ≢ err nil)
    → (z : ℤ) (n : ℕ) → z ≡ pos n
    → (w : W) → (retry c z w).0 ≢ err nil
unfolding retry
retry-ne_nil c h z n e w = rw e (attempts-ne_nil c h n 0 nil w)

-- a call that succeeds is not made again
retry-ok :
    {W A : Type 0} (c : Caller W A) (z : ℤ) (n : ℕ) (a : A) (w : W)
    → z ≡ pos n
    → (c.call w).0 ≡ ok a
    → retry c z w ≡ (ok a, (c.call w).1)
unfolding retry attempts
retry-ok c z n a w m e = rw (m, retry, attempts, e) refl

module _ {F W : Type 0} where
  -- A provider never returns a response and an error that are both nil.
  abbrev pub IsAnswering : ProviderAdapter F W → Type 0
  IsAnswering a = (req : Request F) (w : W) → (a.complete req w).0 ≢ err nil

  -- `WithLogging`, k times
  abbrev pub loggings : ℕ → List (Middleware F W)
  loggings zero = []
  loggings (suc k) = logging_middleware ∷ loggings k

  -- What `Client.Stream` calls on the wrapped adapter.
  abbrev streamed : ProviderAdapter F W → Request F → W → Result Error (Option Stream) × W
  streamed a req w = elim a.complete_stream [
    | some s ↦ s req w
    | none ↦ wrapped_stream (a.complete req w)
  ]

  -- the stream of the first adapter is what the second one's `Complete` returns
  record Agrees (a b : ProviderAdapter F W) : Type 0 where
    agrees :
        (req : Request F) (w : W)
        → read_stream (streamed a req w) ≡ (some (b.complete req w).0, (b.complete req w).1)

  Agrees-none : (a : ProviderAdapter F W) → IsAnswering a → a.complete_stream ≡ none → Agrees a a
  Agrees-none a h e = record {
    agrees =
        λ req w. rw e (read-wrapped_stream (a.complete req w).0 (a.complete req w).1 (h req w));
  }

  streamed-logging_middleware :
      (a : ProviderAdapter F W) (req : Request F) (w : W)
      → streamed (logging_middleware a) req w ≡ streamed a req w
  unfolding logging_middleware
  streamed-logging_middleware a req w = elim (Option-cases a.complete_stream) [
    | inl e ↦ rw e refl
    | inr (f, e) ↦ rw e refl
  ]

  Agrees-logging_middleware :
      (a b : ProviderAdapter F W)
      → Agrees a b
      → Agrees (logging_middleware a) (logging_middleware b)
  unfolding logging_middleware
  Agrees-logging_middleware a b h = record {
    agrees = λ req w. ap read_stream (streamed-logging_middleware a req w) ∙ h.agrees req w;
  }

  Agrees-loggings :
      (k : ℕ) (a b : ProviderAdapter F W)
      → Agrees a b
      → Agrees (wrap (loggings k) a) (wrap (loggings k) b)
  Agrees-loggings zero a b h = h
  Agrees-loggings (suc k) a b h =
      Agrees-logging_middleware (wrap (loggings k) a) (wrap (loggings k) b)
        (Agrees-loggings k a b h)

  complete-loggings :
      (k : ℕ) (a : ProviderAdapter F W) (req : Request F) (w : W)
      → (wrap (loggings k) a).complete req w ≡ a.complete req w
  unfolding logging_middleware
  complete-loggings zero a req w = refl
  complete-loggings (suc k) a req w = complete-loggings k a req w

  streamed-loggings :
      (k : ℕ) (a : ProviderAdapter F W) (req : Request F) (w : W)
      → streamed (wrap (loggings k) a) req w ≡ streamed a req w
  streamed-loggings zero a req w = refl
  streamed-loggings (suc k) a req w =
      streamed-logging_middleware (wrap (loggings k) a) req w ∙ streamed-loggings k a req w

  -- The client whose `Complete` the streams of this one are like, where a retry layer has so many
  -- logging layers around it and so many inside: where there are none inside, the client itself, and
  -- else the client without its retry layer.
  abbrev pub counterpart : ℕ → ℕ → Client F W → Client F W
  counterpart j zero c = c
  counterpart j (suc k) c = record c { middleware = loggings j ++ loggings (suc k) }

  module _ (wait : RetryPolicy → ℕ → W → Bool × W) where
    Agrees-retry_middleware :
        (policy : RetryPolicy) (n : ℕ) (a : ProviderAdapter F W)
        → policy.max_retries ≡ pos n
        → IsAnswering a
        → a.complete_stream ≡ none
        → Agrees (retry_middleware wait policy a) (retry_middleware wait policy a)
    unfolding retry_middleware retry
    Agrees-retry_middleware policy n a m h e =
        let real : IsAnswering (retry_middleware wait policy a) =
          λ req w. retry-ne_nil (completing wait policy a req) (h req) policy.max_retries n m w in
        record { agrees = λ req w. rw e (read-wrapped_stream _ _ (real req w)) }

    -- Behind a logging layer each answer is a stream, also one that is an error.
    Agrees-outer :
        (policy : RetryPolicy) (n k : ℕ) (a : ProviderAdapter F W)
        → policy.max_retries ≡ pos n
        → IsAnswering a
        → a.complete_stream ≡ none
        → Agrees
            (retry_middleware wait policy (wrap (loggings (suc k)) a))
            (wrap (loggings (suc k)) a)
    unfolding retry_middleware logging_middleware
    Agrees-outer policy n k a m h e = record {
      agrees = λ req w.
          let x = wrap (loggings (suc k)) a in
          let r = a.complete req w in
          let plain : streamed a req w ≡ wrapped_stream r = rw e refl in
          let same : streamed x req w ≡ wrapped_stream r =
            streamed-loggings (suc k) a req w ∙ plain in
          let once =
            retry-ok (streaming wait policy (streamed x) req) policy.max_retries n
              (complete_to_stream r.0) w m (ap (λ p. p.0) same) in
          ap read_stream (once ∙ ap (λ p. (ok (complete_to_stream r.0), p.1)) same)
          ∙ read-wrapped_stream r.0 r.1 (h req w)
          ∙ ap (λ (p : Result Error Response × W). (some p.0, p.1))
              (sym (complete-loggings (suc k) a req w));
    }

    -- which provider a client asks does not depend on its layers
    adapter_for-cases :
        (quote : String → String) (c : Client F W) (req : Request F)
        → ((e : Error) × ((ms : List (Middleware F W))
              → adapter_for quote (record c { middleware = ms }) req ≡ err e))
          ⊎ ((name : String) × (raw : ProviderAdapter F W) × (get c.providers name ≡ some raw)
              × ((ms : List (Middleware F W))
                  → adapter_for quote (record c { middleware = ms }) req ≡ ok (wrap ms raw)))
    adapter_for-cases quote c req =
        let name = if str_eq req.provider "" then c.default_prov else req.provider in
        elim (Bool-cases (str_eq name "")) [
          | inl e ↦ inl (
            sdk SdkKind.sdk_error "no provider specified and no default provider configured" nil,
            λ ms. rw e refl,
          )
          | inr e ↦ elim (Option-cases (get c.providers name)) [
            | inl none_there ↦ inl (
              sdk SdkKind.sdk_error (append "unknown provider: " (quote name)) nil,
              λ ms. rw (e, none_there) refl,
            )
            | inr (raw, there) ↦ inr (name, raw, there, λ ms. rw (e, there) refl)
          ]
        ]

    wrap-loggings :
        (k : ℕ) (ms : List (Middleware F W)) (a : ProviderAdapter F W)
        → wrap (loggings k ++ ms) a ≡ wrap (loggings k) (wrap ms a)
    wrap-loggings zero ms a = refl
    wrap-loggings (suc k) ms a = ap logging_middleware (wrap-loggings k ms a)

    -- The layers of a client and those of its counterpart.
    Agrees-layers :
        (j k n : ℕ) (policy : RetryPolicy) (c : Client F W) (raw : ProviderAdapter F W)
        → policy.max_retries ≡ pos n
        → c.middleware ≡ loggings j ++ retry_middleware wait policy ∷ loggings k
        → IsAnswering raw
        → raw.complete_stream ≡ none
        → Agrees (wrap c.middleware raw) (wrap (counterpart j k c).middleware raw)
    Agrees-layers j zero n policy c raw m layers h e =
        let retried = Agrees-retry_middleware policy n raw m h e in
        rw (layers, wrap-loggings j (retry_middleware wait policy ∷ []) raw)
          (Agrees-loggings j _ _ retried)
    Agrees-layers j (suc k) n policy c raw m layers h e =
        rw
          (
            layers,
            wrap-loggings j (retry_middleware wait policy ∷ loggings (suc k)) raw,
            wrap-loggings j (loggings (suc k)) raw,
          )
          (Agrees-loggings j _ _ (Agrees-outer policy n k raw m h e))

    counterpart-middleware :
        (j k : ℕ) (c : Client F W)
        → record c { middleware = (counterpart j k c).middleware } ≡ counterpart j k c
    counterpart-middleware j zero c = refl
    counterpart-middleware j (suc k) c = refl

    -- For a client with one retry layer whose max_retries is not negative, with any number of logging
    -- layers around it and any number inside, and with providers that do not stream and never return
    -- a response and an error that are both nil: reading the stream of Client.Stream to its end gives
    -- the response, or the error, that Client.Complete returns for the request, and leaves the world
    -- in the same state, where there are no logging layers inside the retry layer; where there are,
    -- it gives what Client.Complete returns without the retry layer: the stream is not retried.
    pub stream-complete :
        (quote : String → String) (c : Client F W) (j k n : ℕ) (policy : RetryPolicy)
        → policy.max_retries ≡ pos n
        → c.middleware ≡ loggings j ++ retry_middleware wait policy ∷ loggings k
        → ((name : String) (a : ProviderAdapter F W)
            → get c.providers name ≡ some a
            → IsAnswering a × (a.complete_stream ≡ none))
        → (req : Request F) (w : W)
        → let (r, w1) = complete quote (counterpart j k c) req w in
          read_stream (stream quote c req w) ≡ (some r, w1)
    unfolding stream complete
    stream-complete quote c j k n policy m layers plain req w =
        let ms = (counterpart j k c).middleware in
        let same = counterpart-middleware j k c in
        elim (adapter_for-cases quote c req) [
          | inl (e, fails) ↦
              let p : adapter_for quote c req ≡ err e = fails c.middleware in
              let q : adapter_for quote (counterpart j k c) req ≡ err e =
                subst (λ d. adapter_for quote d req ≡ err e) same (fails ms) in
              rw (stream, complete, p, q) refl
          | inr (name, raw, there, finds) ↦
              let p : adapter_for quote c req ≡ ok (wrap c.middleware raw) = finds c.middleware in
              let q : adapter_for quote (counterpart j k c) req ≡ ok (wrap ms raw) =
                subst (λ d. adapter_for quote d req ≡ ok (wrap ms raw)) same (finds ms) in
              let (answering, no_stream) = plain name raw there in
              let agree = Agrees-layers j k n policy c raw m layers answering no_stream in
              rw (stream, complete, p, q) (agree.agrees req w)
        ]
