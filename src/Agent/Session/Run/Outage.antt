-- ===== src/Agent/Session/Run/Outage.antt =====
-- internal/agent/session.go: a run while the model is down.
use dfgo.Prelude.{
  ℕ, zero, suc, ◌+◌, ◌≤◌, ◌<◌, String, true, false, leb, length, Option, some, ◌≡◌, refl, ap, ◌∙◌,
  arith,
}
use dfgo.Prelude.Result.{err}
use dfgo.Prelude.Text.{append}
use dfgo.Llm.Message.{Request}
use dfgo.Llm.Errors.{Error, wrapped, is_retryable}
use dfgo.Agent.Session.{
  Config, World, State, SessionResult, Event, emit, result, round_limit, build_request,
}
use dfgo.Agent.Session.Turn.{Next, again, done, turn, ask, on_error}
use dfgo.Agent.Session.Run.{turns, run, started, ended}

-- The context is never canceled, and every call fails with the error.
pub record IsDown {F : Type 0} (w : World F) (e : Error) : Type 0 where
  pub alive : (v : w.W) → (w.is_canceled v).0 ≡ false
  pub fails : (req : Request F) (v : w.W) → (w.complete req v).0 ≡ err e

limit_suc : (limit rounds : ℕ) → rounds + 3 ≤ limit → (k : ℕ) × (suc limit ≡ suc (suc (suc k)))
limit_suc zero rounds h = absurd (omega (arith, h))
limit_suc (suc zero) rounds h = absurd (omega (arith, h))
limit_suc (suc (suc n)) rounds h = (n, refl)

module _ {F : Type 0} {w : World F} (e : Error) (down : IsDown w e) (cfg : Config F)
    (complete : cfg.streaming ≡ false) where
  -- A turn, below the limit on rounds.
  turn_down :
      (s : State w)
      → s.rounds < round_limit cfg.max_rounds
      → (t : State w) × (turn cfg s ≡ on_error e t)
        × (t.rounds ≡ suc s.rounds)
        × (t.consecutive_failures ≡ s.consecutive_failures)
  unfolding turn ask build_request
  turn_down s left =
      let c : leb (round_limit cfg.max_rounds) s.rounds ≡ false = ground (arith, left) in
      let s1 : State w = record s { world = (w.is_canceled s.world).1 } in
      let s2 : State w = record (emit (Event.turn_start (suc s.rounds)) s1) {
        rounds = suc s.rounds;
      } in
      let (req, s3) = build_request cfg s2 in
      let s4 = emit (Event.llm_request req.model (length req.messages)) s3 in
      (
        record s4 { world = (w.complete req s4.world).1 },
        rw (turn, down.alive s.world, c, ask, complete, down.fails req s4.world) refl,
        refl,
        refl,
      )

  -- the loop behind a turn
  abbrev behind : ℕ → Next × State w → Option (SessionResult × State w)
  behind fuel p = elim p.0 [
    | again ↦ turns cfg fuel p.1
    | done aborted x ↦ some (result p.1.last_text aborted x p.1, p.1)
  ]

  turns-behind :
      (fuel : ℕ) (s : State w) (p : Next × State w)
      → turn cfg s ≡ p
      → turns cfg (suc fuel) s ≡ behind fuel p
  unfolding turns
  turns-behind fuel s p same = ap (behind fuel) same

  turns_down :
      (fuel : ℕ) (s : State w)
      → s.rounds < round_limit cfg.max_rounds
      → s.consecutive_failures < 2
      → is_retryable e ≡ true
      → (t : State w) × (turns cfg (suc fuel) s ≡ turns cfg fuel t)
        × (t.rounds ≡ suc s.rounds)
        × (t.consecutive_failures ≡ suc s.consecutive_failures)
  unfolding on_error
  turns_down fuel s left few worth =
      let (t, same, rounds, failures) = turn_down s left in
      let c : leb 3 (suc t.consecutive_failures) ≡ false = ground (arith, failures, few) in
      let u : State w = record (emit (Event.llm_error e) t) {
        consecutive_failures = suc t.consecutive_failures;
      } in
      (
        u,
        turns-behind fuel s (again, u) (same ∙ rw (on_error, c, worth) refl),
        rounds,
        ap suc failures,
      )

  turns_broken :
      (fuel : ℕ) (s : State w)
      → s.rounds < round_limit cfg.max_rounds
      → s.consecutive_failures ≡ 2
      → (r : SessionResult) × (t : State w) × (turns cfg (suc fuel) s ≡ some (r, t))
        × (r.rounds ≡ suc s.rounds)
        × (r.aborted ≡ false)
        × (r.error
            ≡ wrapped
                (append "circuit breaker: " (append (w.decimal 3) " consecutive failures: "))
                e)
  unfolding on_error result
  turns_broken fuel s left two =
      let (t, same, rounds, failures) = turn_down s left in
      let c : leb 3 (suc t.consecutive_failures) ≡ true = ground (arith, failures, two) in
      let three : suc t.consecutive_failures ≡ 3 = ground (arith, failures, two) in
      let u : State w = record (emit (Event.llm_error e) t) {
        consecutive_failures = suc t.consecutive_failures;
      } in
      let x =
        wrapped
          (append "circuit breaker: "
            (append (w.decimal (suc t.consecutive_failures)) " consecutive failures: "))
          e in
      (
        result u.last_text false x u,
        u,
        turns-behind fuel s (done false x, u) (same ∙ rw (on_error, c) refl),
        rounds,
        refl,
        rw three refl,
      )

  -- While the context is never canceled and every call of the model fails with one and the same
  -- error that is worth a retry, without streaming and with at least three rounds left below the
  -- limit, a run makes exactly three rounds and returns, not aborted, with the circuit breaker's
  -- error around that error.
  pub run_down :
      (input : String) (s : State w)
      → s.rounds + 3 ≤ round_limit cfg.max_rounds
      → is_retryable e ≡ true
      → (r : SessionResult) × (t : State w) × (run cfg input s ≡ some (r, t))
        × (r.rounds ≡ s.rounds + 3)
        × (r.aborted ≡ false)
        × (r.error
            ≡ wrapped
                (append "circuit breaker: " (append (w.decimal 3) " consecutive failures: "))
                e)
  unfolding run
  run_down input s left worth =
      let (k, much) = limit_suc (round_limit cfg.max_rounds) s.rounds left in
      let s0 = started cfg input s in
      let (s1, e1, r1, f1) =
        turns_down (suc (suc k)) s0 (omega (arith, left)) (omega arith) worth in
      let (s2, e2, r2, f2) =
        turns_down (suc k) s1 (omega (arith, left, r1)) (omega (arith, f1)) worth in
      let (r, t, e3, r3, kept, error) =
        turns_broken k s2 (omega (arith, left, r1, r2)) (omega (arith, f1, f2)) in
      (
        r,
        emit (Event.session_end t.rounds) t,
        ap ended (ap (λ n. turns cfg n s0) much ∙ e1 ∙ e2 ∙ e3),
        omega (arith, r1, r2, r3),
        kept,
        error,
      )
