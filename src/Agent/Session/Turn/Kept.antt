-- ===== src/Agent/Session/Turn/Kept.antt =====
-- internal/agent/session.go: what a turn leaves of the conversation and the count of rounds.
use dfgo.Prelude.{
  ℕ, suc, ◌≤◌, ◌<◌, Bool, true, leb, List, [], ◌∷◌, ◌++◌, map, length, All, some, ◌≡◌, refl, sym,
  ap, ◌∙◌, inl, inr, Bool-cases, ++_assoc, arith,
}
use dfgo.Prelude.Result.{Result, ok, err}
use dfgo.Llm.Message.{Response, ToolCallData, message_tool_calls}
use dfgo.Llm.Errors.{Error, nil, is_retryable}
use dfgo.Agent.Message.{Message, Role, response_to_message, to_call}
use dfgo.Agent.Session.{Config, World, State, Event, emit, receive, build_request, round_limit}
use dfgo.Agent.Session.Turn.{
  Next, again, done, call_tools, inject, account, check_context_window, on_error, on_response, act,
  conclude, next_message, after_call, call_llm, ask, turn,
}
use dfgo.Agent.Session.Turn.Quiet.{
  IsUser, IsSteering, IsQueued, Quiet, Quiet-other, receive-Quiet, check_context_window-Quiet,
  call_llm-Quiet, build_request-Quiet,
}
use dfgo.Agent.Session.Turn.Tools.{answer_ids, call_ids, data_ids, call_tools-Answered}

-- A conversation: messages of the user, and messages of the assistant, each with one answer to each
-- of its tool calls, in order, and then steering messages.
pub data IsConversation : List Message → Type 0 where
  empty : IsConversation []
  said :
      {ms : List Message}
      → IsConversation ms
      → (m : Message) → IsUser m
      → IsConversation (ms ++ m ∷ [])
  answered :
      {ms : List Message}
      → IsConversation ms
      → (m : Message) (answers steers : List Message) → m.role ≡ Role.assistant
      → answer_ids answers ≡ call_ids m.tool_calls
      → All IsSteering steers
      → IsConversation (ms ++ m ∷ (answers ++ steers))

pub record IsSound {F : Type 0} {w : World F} (s : State w) : Type 0 where
  pub conversation : IsConversation s.messages
  pub queued : IsQueued s

pub record Kept {F : Type 0} {w : World F} (s t : State w) : Type 0 where
  pub rounds : t.rounds ≡ s.rounds
  pub sound : IsSound s → IsSound t

call_ids-to_call : (cs : List ToolCallData) → call_ids (map to_call cs) ≡ data_ids cs
call_ids-to_call [] = refl
call_ids-to_call (c ∷ cs) = ap (λ xs. some c.id ∷ xs) (call_ids-to_call cs)

regroup :
    (before : List Message) (m : Message) (answers steers : List Message)
    → ((before ++ m ∷ []) ++ answers) ++ steers ≡ before ++ m ∷ (answers ++ steers)
regroup before m answers steers =
    ++_assoc (before ++ m ∷ []) answers steers ∙ ++_assoc before (m ∷ []) (answers ++ steers)

module _ {F : Type 0} {w : World F} where
  Kept-of_Quiet : (s t : State w) → Quiet s t → Kept s t
  Kept-of_Quiet s t q = record {
    rounds = q.rounds;
    sound = λ h. record { conversation = rw q.messages h.conversation; queued = q.queued h.queued };
  }

  -- a change of other fields
  Kept-fields :
      (s t : State w)
      → t.rounds ≡ s.rounds
      → t.messages ≡ s.messages
      → t.followup ≡ s.followup
      → t.steering ≡ s.steering
      → Kept s t
  Kept-fields s t r m f q = record {
    rounds = r;
    sound = λ h. record {
      conversation = rw m h.conversation;
      queued = record { followup = rw f h.queued.followup; steering = rw q h.queued.steering };
    };
  }

  Kept-after : (s t u : State w) → Quiet s t → Kept t u → Kept s u
  Kept-after s t u q k = record {
    rounds = k.rounds ∙ q.rounds;
    sound = λ h. k.sound ((Kept-of_Quiet s t q).sound h);
  }

  next_message-Kept :
      (ms : List Message) (s : State w) → s.followup ≡ ms → Kept s (next_message ms s).1
  next_message-Kept [] s e = Kept-of_Quiet s _ (Quiet-other s _ refl refl refl refl refl)
  next_message-Kept (m ∷ rest) s e = record {
    rounds = refl;
    sound = λ h.
        let queue : All IsUser (m ∷ rest) = rw e at h.queued.followup in
        record {
          conversation = said h.conversation m queue.0;
          queued = record { followup = queue.1; steering = h.queued.steering };
        };
  }

  conclude-Kept : (s : State w) → Kept s (conclude s).1
  unfolding conclude
  conclude-Kept s =
      Kept-after s (receive s) _ (receive-Quiet s)
        (next_message-Kept (receive s).followup (receive s) refl)

  on_error-Kept : (e : Error) (s : State w) → Kept s (on_error e s).1
  unfolding on_error
  on_error-Kept e s = elim (Bool-cases (leb 3 (suc s.consecutive_failures))) [
    | inl b ↦ rw (on_error, b) (Kept-fields s _ refl refl refl refl)
    | inr b ↦ elim (Bool-cases (is_retryable e)) [
      | inl c ↦ rw (on_error, b, c) (Kept-fields s _ refl refl refl refl)
      | inr c ↦ rw (on_error, b, c) (Kept-fields s _ refl refl refl refl)
    ]
  ]

  inject-IsSound :
      (s : State w) → IsQueued s → IsConversation (s.messages ++ s.steering) → IsSound (inject s)
  unfolding inject
  inject-IsSound s q talk = record {
    conversation = talk;
    queued = record { followup = q.followup; steering = tt };
  }

  inject-rounds : (s : State w) → (inject s).rounds ≡ s.rounds
  unfolding inject
  inject-rounds s = refl

  -- behind the assistant's message
  act-IsSound :
      (cfg : Config F) (m : Message) (tcs : List ToolCallData) (before : List Message) (s : State w)
      → s.messages ≡ before ++ m ∷ []
      → m.role ≡ Role.assistant
      → call_ids m.tool_calls ≡ data_ids tcs
      → IsConversation before
      → IsQueued s
      → IsSound (act cfg tcs s).1
  act-IsSound cfg m [] before s e role ids talk queue =
      (conclude-Kept s).sound
        (record { conversation = rw e (answered talk m [] [] role (sym ids) tt); queued = queue })
  act-IsSound cfg m (tc ∷ tcs) before s e role ids talk queue =
      let s1 = call_tools cfg (tc ∷ tcs) s in
      let a = call_tools-Answered cfg (tc ∷ tcs) s in
      let r = receive-Quiet s1 in
      let q = r.queued (a.queued queue) in
      let all : (receive s1).messages ++ (receive s1).steering
          ≡ before ++ m ∷ (a.answers ++ (receive s1).steering) =
        ap (λ ms. ms ++ (receive s1).steering)
          (r.messages ∙ a.messages ∙ ap (λ ms. ms ++ a.answers) e)
        ∙ regroup before m a.answers (receive s1).steering in
      (Kept-of_Quiet (inject (receive s1)) _ (Quiet-other _ _ refl refl refl refl refl)).sound (
        inject-IsSound (receive s1) q
          (rw all (answered talk m a.answers _ role (a.ids ∙ sym ids) q.steering)))

  act-rounds :
      (cfg : Config F) (tcs : List ToolCallData) (s : State w) → (act cfg tcs s).1.rounds ≡ s.rounds
  act-rounds cfg [] s = (conclude-Kept s).rounds
  act-rounds cfg (tc ∷ tcs) s =
      inject-rounds _ ∙ (receive-Quiet _).rounds ∙ (call_tools-Answered cfg (tc ∷ tcs) s).rounds

  -- the assistant's message, what the tools answered and the steering messages behind them
  on_response-Kept :
      (cfg : Config F) (resp : Response) (s : State w) → Kept s (on_response cfg resp s).1
  unfolding on_response account response_to_message
  on_response-Kept cfg resp s =
      let s1 = account cfg resp s in
      let s2 = check_context_window cfg resp s1 in
      let quiet = check_context_window-Quiet cfg resp s1 in
      let tcs = message_tool_calls resp.message in
      record {
        rounds = act-rounds cfg tcs s2 ∙ quiet.rounds;
        sound = λ h.
            act-IsSound cfg (response_to_message resp) tcs s.messages s2 quiet.messages refl
              (call_ids-to_call tcs) h.conversation
              (quiet.queued
                (record { followup = h.queued.followup; steering = h.queued.steering }));
      }

  after_call-Kept :
      (cfg : Config F) (r : Result Error Response) (s : State w) → Kept s (after_call cfg (r, s)).1
  after_call-Kept cfg (ok resp) s = on_response-Kept cfg resp s
  after_call-Kept cfg (err e) s = on_error-Kept e s

  ask-Kept : (cfg : Config F) (s : State w) → Kept s (ask cfg s).1
  unfolding ask
  ask-Kept cfg s =
      let (req, s1) = build_request cfg s in
      let s2 = emit (Event.llm_request req.model (length req.messages)) s1 in
      let (r, s3) = call_llm cfg req s2 in
      Kept-after s s1 _ (build_request-Quiet cfg s) (
        Kept-after s1 s2 _ (Quiet-other s1 s2 refl refl refl refl refl)
          (Kept-after s2 s3 _ (call_llm-Quiet cfg req s2) (after_call-Kept cfg r s3)))

  -- A turn counts a round only below the limit, and always does where the loop goes on.
  pub record Turned (limit : ℕ) (s : State w) (r : Next × State w) : Type 0 where
    pub within : s.rounds ≤ limit → r.1.rounds ≤ limit
    pub counted : r.0 ≡ again → (s.rounds < limit) × (r.1.rounds ≡ suc s.rounds)
    pub sound : IsSound s → IsSound r.1

  stopped-Turned :
      (limit : ℕ) (s t : State w) (b : Bool) (e : Error) → Quiet s t → Turned limit s (done b e, t)
  stopped-Turned limit s t b e q = record {
    within = λ h. rw q.rounds h;
    counted = λ p. cc;
    sound = (Kept-of_Quiet s t q).sound;
  }

  pub turn-Turned :
      (cfg : Config F) (s : State w) → Turned (round_limit cfg.max_rounds) s (turn cfg s)
  unfolding turn
  turn-Turned cfg s =
      let limit = round_limit cfg.max_rounds in
      let world = (w.is_canceled s.world).1 in
      let s1 : State w = record s { world = world } in
      elim (Bool-cases (w.is_canceled s.world).0) [
        | inl b ↦
            rw (turn, b)
              (stopped-Turned limit s _ true nil (Quiet-other s _ refl refl refl refl refl))
        | inr b ↦ elim (Bool-cases (leb limit s.rounds)) [
          | inl c ↦
              rw (turn, b, c)
                (stopped-Turned limit s _ true nil (Quiet-other s _ refl refl refl refl refl))
          | inr c ↦
              let s2 : State w = record (emit (Event.turn_start (suc s.rounds)) s1) {
                rounds = suc s.rounds;
              } in
              let k = ask-Kept cfg s2 in
              rw (turn, b, c)
                (record {
                  within = λ h. ground (arith, k.rounds, c);
                  counted = λ p. (ground (arith, c), k.rounds);
                  sound = λ h. k.sound (record {
                    conversation = h.conversation;
                    queued = record { followup = h.queued.followup; steering = h.queued.steering };
                  });
                })
        ]
      ]
