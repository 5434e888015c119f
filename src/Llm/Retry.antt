-- ===== src/Llm/Retry.antt =====
-- internal/llm/middleware.go: the retry middleware. The provider, its state and the delays are
-- parameters.
pub mod Attempts
use dfgo.Prelude.{
  ℕ, zero, suc, String, Bool, true, false, not, ◌==◌, if◌then◌else◌, List, [], ◌∷◌, Option, some,
  none,
}
use dfgo.Prelude.Text.{ℤ, pos, negsuc}
use dfgo.Prelude.Result.{Result, ok, err}
use dfgo.Llm.Errors.{Error, nil, other, sdk, SdkKind, is_retryable}

-- a.policy.MaxRetries + 1, the number of values that `attempt` takes
abbrev pub attempts_of : ℤ → ℕ
attempts_of (pos n) = suc n
attempts_of (negsuc n) = 0

-- What the loops of `Complete` and `CompleteStream` run in: `call` is the inner adapter's method,
-- `wait attempt` the select on ctx.Done() and the delay of the attempt: true once it has passed.
pub record Caller (W A : Type 0) : Type 0 where
  pub call : W → Result Error A × W
  pub wait : ℕ → W → Bool × W
  -- the message of the error that an abort leaves
  pub aborted : String

module _ {W A : Type 0} (c : Caller W A) where
  open c use {call, wait, aborted}

  -- The loop from `attempt` on, with `left` attempts left and the last error. Go returns the pair
  -- of nil and an error: nil too where there has been no attempt.
  unfoldable pub attempts : ℕ → ℕ → Error → W → Result Error A × W
  attempts zero attempt last_err w = (err last_err, w)
  attempts (suc left) attempt last_err w =
      let (r, w1) = call w in
      elim r [
        | ok resp ↦ (ok resp, w1)
        | err e ↦
            let (elapsed, w2) = wait attempt w1 in
            let rest = attempts left (suc attempt) e w2 in
            let next =
              if elapsed
              then rest
              else (err (sdk SdkKind.abort aborted (other "context canceled")), w2) in
            if not (is_retryable e)
            then (err e, w1)
            else elim left [ zero ↦ (err e, w1) | suc _ ↦ next ]
      ]

  unfoldable pub retry : ℤ → W → Result Error A × W
  unfolding attempts
  retry max_retries w = attempts (attempts_of max_retries) 0 nil w
