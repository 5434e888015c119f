-- ===== src/Llm/Errors/Retryable.antt =====
-- internal/llm/errors.go: which of a provider's answers are worth a retry.
use dfgo.Prelude.{String, Bool, false, ◌||◌, List, [], ◌∷◌, none, All, ◌≡◌, refl, arith}
use dfgo.Prelude.Text.{ℤ}
use dfgo.Llm.Errors.{
  Error, chain, as_provider, is_rate_limit, is_server, is_network, is_timeout, first_provider, any,
  is_retryable, new_provider_error, is_code, at_least,
}

-- None of the types that `IsRetryable` looks for.
pub record IsForeign (e : Error) : Type 0 where
  pub provider : as_provider e ≡ none
  pub rate_limit : is_rate_limit e ≡ false
  pub server : is_server e ≡ false
  pub network : is_network e ≡ false
  pub timeout : is_timeout e ≡ false

first_provider-none : (es : List Error) → All IsForeign es → first_provider es ≡ none
first_provider-none [] h = refl
first_provider-none (e ∷ es) h = rw (first_provider, h.0.provider) (first_provider-none es h.1)

any-false :
    (p : Error → Bool) (es : List Error)
    → ((e : Error) → IsForeign e → p e ≡ false)
    → All IsForeign es
    → any p es ≡ false
any-false p [] f h = refl
any-false p (e ∷ es) f h = rw (f e h.0) (any-false p es f h.1)

-- An error made from an HTTP status, with a cause whose chain holds none of the types that
-- IsRetryable looks for (no cause among them), is retryable exactly on status 429 and from 500 on:
-- all other 4xx statuses, and those below 400, are not.
pub is_retryable-new_provider_error :
    (provider : String) (status : ℤ) (message : String) (cause : Error)
    → All IsForeign (chain cause)
    → is_retryable (new_provider_error provider status message cause)
      ≡ (is_code status 429 || at_least 500 status)
unfolding is_retryable new_provider_error chain
is_retryable-new_provider_error provider status message cause h = ground (
  arith,
  first_provider-none (chain cause) h,
  any-false is_rate_limit (chain cause) (λ e k. k.rate_limit) h,
  any-false is_server (chain cause) (λ e k. k.server) h,
  any-false is_network (chain cause) (λ e k. k.network) h,
  any-false is_timeout (chain cause) (λ e k. k.timeout) h,
)
