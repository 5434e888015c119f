-- ===== src/Agent/Session/Run/Laws.antt =====
-- internal/agent/session.go: what every run of a session comes to.
use dfgo.Prelude.{ℕ, zero, suc, ◌+◌, ◌≤◌, ◌<◌, String, Option, some, ◌≡◌, refl, sym, ap, ◌∙◌, arith}
use dfgo.Agent.Message.{user_message}
use dfgo.Agent.Session.{Config, World, State, SessionResult, Event, emit, result, round_limit}
use dfgo.Agent.Session.Turn.{Next, again, done, turn}
use dfgo.Agent.Session.Turn.Kept.{IsSound, IsConversation, said, Turned, turn-Turned}
use dfgo.Agent.Session.Turn.Ends.{IsEnding, EndsAs, turn-EndsAs}
use dfgo.Agent.Session.Run.{turns, run, started, ended}

-- What the loop, or a run, returns: the result and the state that is left.
pub record IsReturned {F : Type 0} {w : World F} (cfg : Config F) (s : State w)
    (o : Option (SessionResult × State w)) : Type 0 where
  pub result : SessionResult
  pub state : State w
  pub returned : o ≡ some (result, state)
  pub rounds : result.rounds ≡ state.rounds
  pub messages : result.messages ≡ state.messages
  pub within : s.rounds ≤ round_limit cfg.max_rounds → result.rounds ≤ round_limit cfg.max_rounds
  pub ending : s.consecutive_failures < 3 → IsEnding cfg result.aborted result.error state
  pub sound : IsSound s → IsSound state

some-fst : {A B : Type 0} (p q : A × B) → some p ≡ some q → p.0 ≡ q.0
some-fst p q e = let h : p ≡ q = cc in ap (λ x. x.0) h

module _ {F : Type 0} {w : World F} where
  -- one turn, and the loop behind it
  step-IsReturned :
      (cfg : Config F) (fuel : ℕ) (s : State w) (next : Next) (t : State w)
      → Turned (round_limit cfg.max_rounds) s (next, t)
      → (s.consecutive_failures < 3 → EndsAs cfg next t)
      → ((s.rounds < round_limit cfg.max_rounds)
          → t.rounds ≡ suc s.rounds
          → IsReturned cfg t (turns cfg fuel t))
      → IsReturned cfg s (elim next [
        | again ↦ turns cfg fuel t
        | done aborted e ↦ some (result t.last_text aborted e t, t)
      ])
  unfolding result
  step-IsReturned cfg fuel s again t k e rest =
      let (left, count) = k.counted refl in
      let r = rest left count in
      record {
        result = r.result;
        state = r.state;
        returned = r.returned;
        rounds = r.rounds;
        messages = r.messages;
        within = λ h. r.within (k.within h);
        ending = λ h. r.ending (e h);
        sound = λ h. r.sound (k.sound h);
      }
  step-IsReturned cfg fuel s (done aborted x) t k e rest = record {
    result = result t.last_text aborted x t;
    state = t;
    returned = refl;
    rounds = refl;
    messages = refl;
    within = k.within;
    ending = e;
    sound = k.sound;
  }

  turns-IsReturned :
      (cfg : Config F) (fuel : ℕ) (s : State w)
      → round_limit cfg.max_rounds < s.rounds + fuel
      → s.rounds ≤ round_limit cfg.max_rounds
      → IsReturned cfg s (turns cfg fuel s)
  unfolding turns
  turns-IsReturned cfg zero s enough h = absurd (omega (arith, enough, h))
  turns-IsReturned cfg (suc fuel) s enough h =
      step-IsReturned cfg fuel s (turn cfg s).0 (turn cfg s).1 (turn-Turned cfg s)
        (turn-EndsAs cfg s)
        (λ left count.
          turns-IsReturned cfg fuel (turn cfg s).1 (omega (arith, enough, count))
            (omega (arith, left, count)))

  ended-result :
      (cfg : Config F) (s : State w) (o : Option (SessionResult × State w)) (h : IsReturned cfg s o)
      → ended o ≡ some (h.result, emit (Event.session_end h.state.rounds) h.state)
  ended-result cfg s o h = ap ended h.returned

  -- What a run returns as its messages, from a session with a well-formed conversation, user
  -- messages queued as follow-ups and steering messages queued to steer, as in a new one: each
  -- message of the assistant is followed by one answer to each of its tool calls, with the call's
  -- id and in the order of the calls, then by steering messages, and the rest are user messages.
  pub run-IsConversation :
      (cfg : Config F) (input : String) (s : State w) (r : SessionResult) (t : State w)
      → s.rounds ≤ round_limit cfg.max_rounds
      → IsSound s
      → run cfg input s ≡ some (r, t)
      → IsConversation r.messages
  unfolding run user_message
  run-IsConversation cfg input s r t h sound e =
      let limit = round_limit cfg.max_rounds in
      let o = turns-IsReturned cfg (suc limit) (started cfg input s) (omega arith) h in
      let same : o.result ≡ r =
        some-fst _ (r, t) (sym (ended-result cfg (started cfg input s) _ o) ∙ e) in
      let k = o.sound (record {
        conversation = said sound.conversation (user_message input) refl;
        queued = record { followup = sound.queued.followup; steering = sound.queued.steering };
      }) in
      rw (← same, o.messages) k.conversation
