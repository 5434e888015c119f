-- ===== src/Runtime/Retry.antt =====
-- internal/attractor/runtime/retry.go: the named policies. A backoff factor is counted in tenths.
use dfgo.Prelude.{ℕ, String, Bool, true, false, List, [], ◌∷◌, if◌then◌else◌}
use dfgo.Prelude.Text.{is_lower_of}

pub record RetryPolicy : Type 0 where
  pub initial_delay_ms : ℕ
  pub backoff_tenths : ℕ
  pub max_delay_ms : ℕ
  pub jitter : Bool

abbrev policy : ℕ → ℕ → ℕ → Bool → RetryPolicy
policy initial tenths max jitter = record {
  initial_delay_ms = initial;
  backoff_tenths = tenths;
  max_delay_ms = max;
  jitter = jitter;
}

abbrev standard : RetryPolicy
standard = policy 200 20 60000 true

abbrev presets : List (String × RetryPolicy)
presets =
    ("none", policy 0 10 0 false)
    ∷ ("standard", standard)
    ∷ ("aggressive", policy 50 15 5000 true)
    ∷ ("linear", policy 1000 10 1000 false)
    ∷ ("patient", policy 1000 30 120000 true)
    ∷ []

abbrev find_policy : String → List (String × RetryPolicy) → RetryPolicy
find_policy name [] = standard
find_policy name ((key, p) ∷ ps) =
    let rest = find_policy name ps in if is_lower_of name key then p else rest

unfoldable pub policy_by_name : String → RetryPolicy
policy_by_name name = find_policy name presets
