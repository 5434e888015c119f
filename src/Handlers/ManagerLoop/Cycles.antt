-- ===== src/Handlers/ManagerLoop/Cycles.antt =====
-- internal/attractor/handler/manager_loop.go: how often the child is run, and how the loop ends.
use dfgo.Prelude.{
  ℕ, zero, suc, ◌+◌, ◌≤◌, String, Bool, true, false, str_eq-cases, if◌then◌else◌, Option, some,
  none, ◌≡◌, refl, sym, ◌∙◌, ◌⊎◌, inl, inr, Bool-cases, arith,
}
use dfgo.Prelude.Result.{Result, ok, err}
use dfgo.Prelude.Text.{ℤ, pos, negsuc}
use dfgo.Cond.{Expr}
use dfgo.Runtime.Outcome.{Outcome, success_outcome, fail_outcome, transient}
use dfgo.Handlers.ManagerLoop.{
  Manager, Settings, stops, child_status, observed, observed_if, canceled_outcome, child_error,
  waited, supervise, cycles_after_first, manage,
}

-- What the manager has met: how often the child has run, what it returned last, and whether the
-- context was found to have ended.
pub record Met : Type 0 where
  pub runs : ℕ
  pub last : Option (Result String Outcome)
  pub gone : Bool

-- The same manager, with what it has met.
abbrev pub counted : Manager → Manager
counted m = record {
  W = Met × m.W;
  child = λ children (h, w).
      let (r, w1) = m.child children w in
      (r, (record { runs = suc h.runs; last = some r; gone = h.gone }, w1));
  is_done = λ (h, w).
      let (b, w1) = m.is_done w in (b, (record { runs = h.runs; last = h.last; gone = b }, w1));
  wait = λ (h, w).
      let (b, w1) = m.wait w in
      (b, (record { runs = h.runs; last = h.last; gone = if b then false else true }, w1));
  pctx = λ (h, w). m.pctx w;
  error_text = m.error_text;
}

-- the state behind so many runs, the last of which returned the outcome
abbrev pub ran : ℕ → Outcome → Met
ran n o = record { runs = n; last = some (ok o); gone = false }

abbrev pub nothing_met : Met
nothing_met = record { runs = 0; last = none; gone = false }

-- max_cycles, or 1 where that is less
abbrev pub cycle_limit : ℤ → ℕ
cycle_limit (pos zero) = 1
cycle_limit (pos (suc n)) = suc n
cycle_limit (negsuc n) = 1

pub cycle_limit-cycles_after_first : (z : ℤ) → cycle_limit z ≡ suc (cycles_after_first z)
cycle_limit-cycles_after_first (pos zero) = refl
cycle_limit-cycles_after_first (pos (suc n)) = omega arith
cycle_limit-cycles_after_first (negsuc n) = refl

module _ (m : Manager) where
  -- What is true where the manager succeeds: the child has reported so, or the stop condition holds
  -- for the outcome that the child returned last.
  abbrev pub HasReason : Bool → Option Expr → Outcome → m.W → Type 0
  HasReason observe stop o w =
      (observe ≡ true) × ((child_status m w ≡ "SUCCESS") ⊎ (stops m stop o w ≡ true))

  -- How the loop ends, with what it has met.
  pub data IsManaged (s : Settings) (limit : ℕ) : Outcome × (Met × m.W) → Type 0 where
    succeeded :
        (n : ℕ) (o : Outcome) (w : m.W)
        → 1 ≤ n
        → n ≤ limit
        → HasReason s.observe s.stop o w
        → IsManaged s limit (success_outcome, (ran n o, w))
    child_failed :
        (n : ℕ) (o : Outcome) (w : m.W)
        → 1 ≤ n
        → n ≤ limit
        → s.observe ≡ true
        → child_status m w ≡ "FAIL"
        → IsManaged s limit (fail_outcome "manager_loop: child failed" transient, (ran n o, w))
    canceled :
        (n : ℕ) (o : Outcome) (w : m.W)
        → 1 ≤ n
        → n ≤ limit
        → IsManaged s limit
            (canceled_outcome, (record { runs = n; last = some (ok o); gone = true }, w))
    broken :
        (n : ℕ) (e : String) (w : m.W)
        → 1 ≤ n
        → n ≤ limit
        → IsManaged s limit
            (child_error e, (record { runs = n; last = some (err e); gone = false }, w))
    exhausted :
        (n : ℕ) (o : Outcome) (w : m.W)
        → n ≡ limit
        → IsManaged s limit
            (fail_outcome "manager_loop: max cycles exceeded" transient, (ran n o, w))

  -- What the observation of a cycle gives.
  data Seen (observe : Bool) (stop : Option Expr) (o : Outcome) (w : m.W)
      : Option Outcome → Type 0 where
    onward : Seen observe stop o w none
    good : HasReason observe stop o w → Seen observe stop o w (some success_outcome)
    bad :
        observe ≡ true
        → child_status m w ≡ "FAIL"
        → Seen observe stop o w (some (fail_outcome "manager_loop: child failed" transient))

  stops-counted :
      (stop : Option Expr) (h : Met) (o : Outcome) (w : m.W)
      → stops (counted m) stop o (h, w) ≡ stops m stop o w
  stops-counted none h o w = refl
  stops-counted (some e) h o w = refl

  observed-Seen :
      (observe : Bool) (stop : Option Expr) (h : Met) (o : Outcome) (w : m.W)
      → Seen observe stop o w (observed_if (counted m) observe stop o (h, w))
  unfolding observed
  observed-Seen false stop h o w = onward
  observed-Seen true stop h o w = elim (str_eq-cases (child_status m w) "SUCCESS") [
    | inl (b, p) ↦ rw (observed, b) (good (refl, inl p))
    | inr (b, _) ↦ elim (str_eq-cases (child_status m w) "FAIL") [
      | inl (c, q) ↦ rw (observed, b, c) (bad refl q)
      | inr (c, _) ↦ elim (Bool-cases (stops (counted m) stop o (h, w))) [
        | inl d ↦ rw (observed, b, c, d) (good (refl, inr (sym (stops-counted stop h o w) ∙ d)))
        | inr d ↦ rw (observed, b, c, d) onward
      ]
    ]
  ]

  -- the loop behind the child's next run is as it should be
  abbrev Onward : Settings → ℕ → ℕ → ℕ → Type 0
  Onward s limit left n =
      (o : Outcome) (v : m.W)
      → IsManaged s limit (supervise (counted m) s left o (ran (suc n) o, v))

  -- what the child's run has returned is looked at
  returned-IsManaged :
      (s : Settings) (limit left n : ℕ) (r : Result String Outcome) (u : m.W)
      → suc n + left ≡ limit
      → Onward s limit left n
      → let v : Met × m.W = (record { runs = suc n; last = some r; gone = false }, u) in
        IsManaged s limit
          (elim r [ err e ↦ (child_error e, v) | ok x ↦ supervise (counted m) s left x v ])
  returned-IsManaged s limit left n (ok x) u few rest = rest x u
  returned-IsManaged s limit left n (err e) u few rest =
      broken (suc n) e u (omega arith) (omega (arith, few))

  elapsed-IsManaged :
      (s : Settings) (limit left n : ℕ) (o : Outcome) (b : Bool) (w : m.W)
      → 1 ≤ n
      → suc n + left ≡ limit
      → Onward s limit left n
      → let v : Met × m.W =
          (record { runs = n; last = some (ok o); gone = if b then false else true }, w) in
        let (r, u) = (counted m).child s.children v in
        IsManaged s limit (
          if b
          then elim r [ err e ↦ (child_error e, u) | ok x ↦ supervise (counted m) s left x u ]
          else (canceled_outcome, v))
  elapsed-IsManaged s limit left n o true w some_run few rest =
      returned-IsManaged s limit left n (m.child s.children w).0 (m.child s.children w).1 few rest
  elapsed-IsManaged s limit left n o false w some_run few rest =
      canceled n o w some_run (omega (arith, few))

  wait-IsManaged :
      (s : Settings) (limit left n : ℕ) (o : Outcome) (w : m.W) (waits : Bool)
      → 1 ≤ n
      → suc n + left ≡ limit
      → Onward s limit left n
      → let (elapsed, v) = waited (counted m) waits (ran n o, w) in
        let (r, u) = (counted m).child s.children v in
        IsManaged s limit (
          if elapsed
          then elim r [ err e ↦ (child_error e, u) | ok x ↦ supervise (counted m) s left x u ]
          else (canceled_outcome, v))
  wait-IsManaged s limit left n o w false some_run few rest =
      returned-IsManaged s limit left n (m.child s.children w).0 (m.child s.children w).1 few rest
  wait-IsManaged s limit left n o w true some_run few rest =
      elapsed-IsManaged s limit left n o (m.wait w).0 (m.wait w).1 some_run few rest

  -- one cycle behind its observation
  cycle-IsManaged :
      (s : Settings) (limit left n : ℕ) (o : Outcome) (w : m.W) (seen : Option Outcome)
      → 1 ≤ n
      → suc n + left ≡ limit
      → Seen s.observe s.stop o w seen
      → Onward s limit left n
      → let (elapsed, v) = waited (counted m) s.waits (ran n o, w) in
        let (r, u) = (counted m).child s.children v in
        IsManaged s limit (elim seen [
          | some x ↦ (x, (ran n o, w))
          | none ↦
              if elapsed
              then elim r [ err e ↦ (child_error e, u) | ok x ↦ supervise (counted m) s left x u ]
              else (canceled_outcome, v)
        ])
  cycle-IsManaged s limit left n o w seen some_run few (good h) rest =
      succeeded n o w some_run (omega (arith, few)) h
  cycle-IsManaged s limit left n o w seen some_run few (bad h k) rest =
      child_failed n o w some_run (omega (arith, few)) h k
  cycle-IsManaged s limit left n o w seen some_run few onward rest =
      wait-IsManaged s limit left n o w s.waits some_run few rest

  -- one cycle behind the look at the context
  done-IsManaged :
      (s : Settings) (limit left n : ℕ) (o : Outcome) (ended : Bool) (w : m.W)
      → 1 ≤ n
      → suc n + left ≡ limit
      → Onward s limit left n
      → let v : Met × m.W = (record { runs = n; last = some (ok o); gone = ended }, w) in
        let (elapsed, x) = waited (counted m) s.waits v in
        let (r, u) = (counted m).child s.children x in
        IsManaged s limit (
          if ended
          then (canceled_outcome, v)
          else elim (observed_if (counted m) s.observe s.stop o v) [
            | some y ↦ (y, v)
            | none ↦
                if elapsed
                then elim r [ err e ↦ (child_error e, u) | ok y ↦ supervise (counted m) s left y u ]
                else (canceled_outcome, x)
          ])
  done-IsManaged s limit left n o true w some_run few rest =
      canceled n o w some_run (omega (arith, few))
  done-IsManaged s limit left n o false w some_run few rest =
      cycle-IsManaged s limit left n o w _ some_run few
        (observed-Seen s.observe s.stop (ran n o) o w) rest

  supervise-IsManaged :
      (s : Settings) (limit left n : ℕ) (o : Outcome) (w : m.W)
      → 1 ≤ n
      → n + left ≡ limit
      → IsManaged s limit (supervise (counted m) s left o (ran n o, w))
  unfolding supervise
  supervise-IsManaged s limit zero n o w some_run few = exhausted n o w (omega (arith, few))
  supervise-IsManaged s limit (suc left) n o w some_run few =
      done-IsManaged s limit left n o (m.is_done w).0 (m.is_done w).1 some_run (omega (arith, few))
        (λ x u. supervise-IsManaged s limit left (suc n) x u (omega arith) (omega (arith, few)))

  -- The way in which the loop ends, with what the manager has met.
  pub manage-IsManaged :
      (s : Settings) (max_cycles : ℤ) (w : m.W)
      → IsManaged s (cycle_limit max_cycles) (manage (counted m) s max_cycles (nothing_met, w))
  unfolding manage
  manage-IsManaged s max_cycles w =
      let limit = cycle_limit max_cycles in
      let first = cycle_limit-cycles_after_first max_cycles in
      returned-IsManaged s limit (cycles_after_first max_cycles) 0 (m.child s.children w).0
        (m.child s.children w).1 (omega (arith, first))
        (λ o v.
          supervise-IsManaged s limit (cycles_after_first max_cycles) 1 o v (omega arith)
            (omega (arith, first)))
