-- ===== src/Agent/Session/Run.antt =====
-- internal/agent/session.go: the loop in `Run`.
pub mod Laws
pub mod Outage
use dfgo.Prelude.{ℕ, zero, suc, String, Bool, List, [], Option, some, none}
use dfgo.Llm.Errors.{Error}
use dfgo.Agent.Message.{user_message}
use dfgo.Agent.Session.{Config, World, State, SessionResult, Event, emit, say, result, round_limit}
use dfgo.Agent.Session.Turn.{Next, again, done, turn}

module _ {F : Type 0} {w : World F} where
  -- The loop, on fuel; each turn that does not return has counted a round.
  unfoldable pub turns : Config F → ℕ → State w → Option (SessionResult × State w)
  unfolding turn
  turns cfg zero s = none
  turns cfg (suc fuel) s =
      let (next, s1) = turn cfg s in
      elim next [
        | again ↦ turns cfg fuel s1
        | done aborted e ↦ some (result s1.last_text aborted e s1, s1)
      ]

  -- the state that the loop starts in
  abbrev pub started : Config F → String → State w → State w
  started cfg input s = record (say (user_message input) (emit (Event.session_start cfg.model) s)) {
    consecutive_failures = 0;
    last_text = "";
  }

  abbrev pub ended : Option (SessionResult × State w) → Option (SessionResult × State w)
  ended none = none
  ended (some (r, s)) = some (r, emit (Event.session_end s.rounds) s)

  -- One more turn than there are rounds allowed.
  unfoldable pub run : Config F → String → State w → Option (SessionResult × State w)
  unfolding turns
  run cfg input s = ended (turns cfg (suc (round_limit cfg.max_rounds)) (started cfg input s))
