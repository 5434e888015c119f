-- ===== src/Agent/Session/Turn/Quiet.antt =====
-- internal/agent/session.go: the parts of a turn that add no message and count no round.
use dfgo.Prelude.{
  ℕ, zero, suc, String, Bool, true, false, List, [], ◌∷◌, map, All, All-append, ◌≡◌, refl, ◌∙◌, inl,
  inr, Bool-cases,
}
use dfgo.Prelude.Result.{Result, ok, err, Result-cases}
use dfgo.Prelude.Text.{ℤ, pos, negsuc}
use dfgo.Llm.Message.{Request, Response, ToolCallData}
use dfgo.Llm.Errors.{Error}
use dfgo.Llm.Stream.{StreamEvent, StreamEventType, read_events, stream_result}
use dfgo.Agent.Message.{Message, Role, user_message, steering_message}
use dfgo.Agent.Detector.{record_call}
use dfgo.Agent.Session.{
  Config, World, State, Event, emit, build_request, receive, steer, loop_enabled,
}
use dfgo.Agent.Session.Turn.{
  stream_turn, stream_events, stream_event, streamed, call_llm, check_context_window, warn_if,
  watch, warned,
}

abbrev pub IsUser : Message → Type 0
IsUser m = m.role ≡ Role.user

abbrev pub IsSteering : Message → Type 0
IsSteering m = m.role ≡ Role.steering

-- What the queues hold.
pub record IsQueued {F : Type 0} {w : World F} (s : State w) : Type 0 where
  pub followup : All IsUser s.followup
  pub steering : All IsSteering s.steering

pub record Quiet {F : Type 0} {w : World F} (s t : State w) : Type 0 where
  pub rounds : t.rounds ≡ s.rounds
  pub messages : t.messages ≡ s.messages
  pub failures : t.consecutive_failures ≡ s.consecutive_failures
  pub queued : IsQueued s → IsQueued t

steers-IsSteering : (ss : List String) → All IsSteering (map steering_message ss)
unfolding steering_message
steers-IsSteering [] = tt
steers-IsSteering (s ∷ ss) = (refl, steers-IsSteering ss)

follows-IsUser : (ss : List String) → All IsUser (map user_message ss)
unfolding user_message
follows-IsUser [] = tt
follows-IsUser (s ∷ ss) = (refl, follows-IsUser ss)

module _ {F : Type 0} {w : World F} where
  -- a change of other fields
  pub Quiet-other :
      (s t : State w)
      → t.rounds ≡ s.rounds
      → t.messages ≡ s.messages
      → t.followup ≡ s.followup
      → t.steering ≡ s.steering
      → t.consecutive_failures ≡ s.consecutive_failures
      → Quiet s t
  Quiet-other s t r m f q c = record {
    failures = c;
    rounds = r;
    messages = m;
    queued = λ h. record { followup = rw f h.followup; steering = rw q h.steering };
  }

  pub Quiet-trans : (s t u : State w) → Quiet s t → Quiet t u → Quiet s u
  Quiet-trans s t u a b = record {
    rounds = b.rounds ∙ a.rounds;
    messages = b.messages ∙ a.messages;
    failures = b.failures ∙ a.failures;
    queued = λ h. b.queued (a.queued h);
  }

  pub receive-Quiet : (s : State w) → Quiet s (receive s)
  unfolding receive
  receive-Quiet s = record {
    rounds = refl;
    messages = refl;
    failures = refl;
    queued = λ h. record {
      followup = All-append IsUser s.followup _ h.followup (follows-IsUser _);
      steering = All-append IsSteering s.steering _ h.steering (steers-IsSteering _);
    };
  }

  steer-Quiet : (content : String) (s : State w) → Quiet s (steer content s)
  unfolding steer steering_message
  steer-Quiet content s = record {
    rounds = refl;
    messages = refl;
    failures = refl;
    queued = λ h. record {
      followup = h.followup;
      steering = All-append IsSteering s.steering _ h.steering (refl, tt);
    };
  }

  stream_event-Quiet :
      (e : StreamEvent) (t : StreamEventType) (s : State w) → Quiet s (stream_event e t s)
  stream_event-Quiet e StreamEventType.response_meta s = Quiet-other s _ refl refl refl refl refl
  stream_event-Quiet e StreamEventType.content_delta s = Quiet-other s _ refl refl refl refl refl
  stream_event-Quiet e StreamEventType.content_start s = Quiet-other s _ refl refl refl refl refl
  stream_event-Quiet e StreamEventType.content_stop s = Quiet-other s _ refl refl refl refl refl
  stream_event-Quiet e StreamEventType.usage_event s = Quiet-other s _ refl refl refl refl refl
  stream_event-Quiet e StreamEventType.error_event s = Quiet-other s _ refl refl refl refl refl

  stream_events-Quiet : (es : List StreamEvent) (s : State w) → Quiet s (stream_events es s)
  stream_events-Quiet [] s = Quiet-other s s refl refl refl refl refl
  stream_events-Quiet (e ∷ es) s =
      Quiet-trans s (stream_event e e.type s) _ (stream_event-Quiet e e.type s)
        (stream_events-Quiet es (stream_event e e.type s))

  streamed-Quiet : (r : Result Error Response) (s : State w) → Quiet s (streamed r s).1
  streamed-Quiet (ok resp) s = Quiet-other s _ refl refl refl refl refl
  streamed-Quiet (err e) s = Quiet-other s _ refl refl refl refl refl

  stream_turn-Quiet : (req : Request F) (s : State w) → Quiet s (stream_turn req s).1
  unfolding stream_turn
  stream_turn-Quiet req s = elim (Result-cases (w.stream req s.world).0) [
    | inl (st, p) ↦
        let s1 : State w = record s { world = (w.stream req s.world).1 } in
        let s2 = stream_events (read_events st.events).0 s1 in
        rw (stream_turn, p)
          (Quiet-trans s s1 _ (Quiet-other s s1 refl refl refl refl refl) (
            Quiet-trans s1 s2 _ (stream_events-Quiet (read_events st.events).0 s1)
              (streamed-Quiet (stream_result st) s2)))
    | inr (e, p) ↦ rw (stream_turn, p) (Quiet-other s _ refl refl refl refl refl)
  ]

  pub call_llm-Quiet :
      (cfg : Config F) (req : Request F) (s : State w) → Quiet s (call_llm cfg req s).1
  call_llm-Quiet cfg req s = elim (Bool-cases cfg.streaming) [
    | inl e ↦ rw e (stream_turn-Quiet req s)
    | inr e ↦ rw e (Quiet-other s _ refl refl refl refl refl)
  ]

  pub build_request-Quiet : (cfg : Config F) (s : State w) → Quiet s (build_request cfg s).1
  unfolding build_request
  build_request-Quiet cfg s = Quiet-other s _ refl refl refl refl refl

  warn_if-Quiet :
      (b : Bool) (tokens : ℕ) (size : ℤ) (s : State w) → Quiet s (warn_if b tokens size s)
  warn_if-Quiet false tokens size s = Quiet-other s s refl refl refl refl refl
  warn_if-Quiet true tokens size s =
      let s1 = emit (Event.context_truncate tokens size) s in
      Quiet-trans s s1 _ (Quiet-other s s1 refl refl refl refl refl)
        (Quiet-trans s1 (receive s1) _ (receive-Quiet s1) (steer-Quiet _ (receive s1)))

  pub check_context_window-Quiet :
      (cfg : Config F) (resp : Response) (s : State w) → Quiet s (check_context_window cfg resp s)
  unfolding check_context_window
  check_context_window-Quiet cfg resp s = go cfg.context_window_size
    where
      go :
          (size : ℤ)
          → Quiet s (elim size [
            | pos zero ↦ s
            | pos (suc n) ↦
                warn_if
                  (w.is_full resp.usage.input_tokens (pos (suc n)))
                  resp.usage.input_tokens
                  (pos (suc n))
                  s
            | negsuc n ↦ s
          ])
      go (pos zero) = Quiet-other s s refl refl refl refl refl
      go (pos (suc n)) = warn_if-Quiet _ resp.usage.input_tokens (pos (suc n)) s
      go (negsuc n) = Quiet-other s s refl refl refl refl refl

  warned-Quiet : (b : Bool) (tool : String) (s : State w) → Quiet s (warned b tool s)
  warned-Quiet false tool s = Quiet-other s s refl refl refl refl refl
  warned-Quiet true tool s =
      let s1 = emit (Event.loop_detected tool) s in
      Quiet-trans s s1 _ (Quiet-other s s1 refl refl refl refl refl) (steer-Quiet _ s1)

  pub watch-Quiet : (cfg : Config F) (tc : ToolCallData) (s : State w) → Quiet s (watch cfg tc s)
  unfolding watch
  watch-Quiet cfg tc s = elim (Bool-cases (loop_enabled cfg.enable_loop_detection)) [
    | inl e ↦
        let (looping, detector) = record_call w.hash s.detector tc.name tc.arguments in
        let s1 : State w = record s { detector = detector } in
        rw e (
          Quiet-trans s s1 _ (Quiet-other s s1 refl refl refl refl refl)
            (warned-Quiet looping tc.name s1))
    | inr e ↦ rw e (Quiet-other s s refl refl refl refl refl)
  ]
