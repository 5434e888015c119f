-- ===== src/Llm/Errors.antt =====
-- internal/llm/errors.go: the errors, their chains by `Unwrap`, and which are worth a retry.
-- `RetryAfter` is never set and left out.
pub mod Retryable
use dfgo.Prelude.{
  String, Bool, true, false, ◌||◌, ◌==◌, leb, if◌then◌else◌, List, [], ◌∷◌, Option, some, none, ℕ,
}
use dfgo.Prelude.Text.{ℤ, pos, negsuc}

-- `ProviderError` and the types that embed it.
pub data ApiKind : Type 0 where
  provider_error authentication rate_limit server context_length : ApiKind
  invalid_request content_filter quota_exceeded : ApiKind

-- `SDKError` and the other types that embed it.
pub data SdkKind : Type 0 where
  sdk_error request_timeout abort network configuration : SdkKind

-- What a `ProviderError` has besides its cause.
pub record ProviderData : Type 0 where
  pub message : String
  pub provider : String
  pub status_code : ℤ
  pub retryable : Bool

-- A Go error: nil, one of another package without `Unwrap`, one that `fmt.Errorf` wraps by %w, and
-- pointers to the types above, each with its cause.
pub data Error : Type 0 where
  nil : Error
  other : String → Error
  wrapped : String → Error → Error
  api : ApiKind → ProviderData → Error → Error
  sdk : SdkKind → String → Error → Error

-- an error, what it unwraps to, and so on, as `errors.As` goes through them
unfoldable pub chain : Error → List Error
chain nil = []
chain (other m) = other m ∷ []
chain (wrapped m e) = wrapped m e ∷ chain e
chain (api k d e) = api k d e ∷ chain e
chain (sdk k m e) = sdk k m e ∷ chain e

-- a *ProviderError: not a type that embeds one
abbrev pub as_provider : Error → Option ProviderData
as_provider (api ApiKind.provider_error d e) = some d
as_provider _ = none

abbrev pub is_rate_limit : Error → Bool
is_rate_limit (api ApiKind.rate_limit d e) = true
is_rate_limit _ = false

abbrev pub is_server : Error → Bool
is_server (api ApiKind.server d e) = true
is_server _ = false

abbrev pub is_network : Error → Bool
is_network (sdk SdkKind.network m e) = true
is_network _ = false

abbrev pub is_timeout : Error → Bool
is_timeout (sdk SdkKind.request_timeout m e) = true
is_timeout _ = false

abbrev pub first_provider : List Error → Option ProviderData
first_provider [] = none
first_provider (e ∷ es) = elim (as_provider e) [ some d ↦ some d | none ↦ first_provider es ]

abbrev pub any : (Error → Bool) → List Error → Bool
any p [] = false
any p (e ∷ es) = p e || any p es

unfoldable pub is_retryable : Error → Bool
unfolding chain
is_retryable e = elim (first_provider (chain e)) [
  | some d ↦ d.retryable
  | none ↦
      if any is_rate_limit (chain e)
      then true
      else if any is_server (chain e)
      then true
      else if any is_network (chain e)
      then true
      else if any is_timeout (chain e)
      then true
      else false
]

abbrev pub at_least : ℕ → ℤ → Bool
at_least n (pos m) = leb n m
at_least n (negsuc m) = false

abbrev pub is_code : ℤ → ℕ → Bool
is_code (pos m) n = m == n
is_code (negsuc m) n = false

unfoldable pub new_provider_error : String → ℤ → String → Error → Error
new_provider_error provider status_code message cause =
    let base : ProviderData = record {
      message = message;
      provider = provider;
      status_code = status_code;
      retryable = false;
    } in
    if is_code status_code 401 || is_code status_code 403
    then api ApiKind.authentication base cause
    else if is_code status_code 429
    then api ApiKind.rate_limit (record base { retryable = true }) cause
    else if is_code status_code 400
    then api ApiKind.invalid_request base cause
    else if is_code status_code 413
    then api ApiKind.context_length base cause
    else if at_least 500 status_code
    then api ApiKind.server (record base { retryable = true }) cause
    else api ApiKind.provider_error base cause
