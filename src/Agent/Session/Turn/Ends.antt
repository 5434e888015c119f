-- ===== src/Agent/Session/Turn/Ends.antt =====
-- internal/agent/session.go: how a turn ends.
use dfgo.Prelude.{
  suc, ◌≤◌, ◌<◌, String, Bool, true, false, leb, List, [], ◌∷◌, ◌++◌, map, length, ◌≡◌, refl, ap,
  ◌∙◌, inl, inr, Bool-cases, arith,
}
use dfgo.Prelude.Result.{Result, ok, err}
use dfgo.Llm.Message.{Request, Response, ToolCallData, message_tool_calls}
use dfgo.Llm.Errors.{Error, nil, wrapped, is_retryable}
use dfgo.Agent.Message.{Message, Role, response_to_message, to_call}
use dfgo.Agent.Session.{Config, World, State, Event, emit, receive, build_request, round_limit}
use dfgo.Agent.Session.Turn.{
  Next, again, done, call_tools, inject, account, check_context_window, on_error, on_response, act,
  conclude, next_message, after_call, call_llm, ask, turn,
}
use dfgo.Agent.Session.Turn.Quiet.{
  receive-Quiet, check_context_window-Quiet, call_llm-Quiet, build_request-Quiet,
}
use dfgo.Agent.Session.Turn.Tools.{call_tools-Answered}

-- The last message is the assistant's, and calls no tool.
pub record IsAnswered (ms : List Message) : Type 0 where
  pub before : List Message
  pub last : Message
  pub at_end : ms ≡ before ++ last ∷ []
  pub role : last.role ≡ Role.assistant
  pub no_calls : last.tool_calls ≡ []

-- The last call of the model has returned the error: the world is as the call has left it.
pub record IsCallError {F : Type 0} {w : World F} (cfg : Config F) (error : Error) (t : State w)
    : Type 0 where
  pub request : Request F
  pub at : State w
  pub left : State w
  pub returned : call_llm cfg request at ≡ (err error, left)
  pub world : left.world ≡ t.world

-- The ways in which `Run` returns, with its configuration and the state that is left.
pub data IsEnding {F : Type 0} {w : World F} (cfg : Config F) (aborted : Bool) (error : Error)
    (t : State w) : Type 0 where
  canceled :
      aborted ≡ true
      → error ≡ nil
      → (v : w.W) → w.is_canceled v ≡ (true, t.world)
      → IsEnding cfg aborted error t
  exhausted :
      aborted ≡ true
      → error ≡ nil
      → round_limit cfg.max_rounds ≤ t.rounds
      → IsEnding cfg aborted error t
  broken :
      aborted ≡ false
      → (m : String) (e : Error) → error ≡ wrapped m e
      → IsCallError cfg e t
      → t.consecutive_failures ≡ 3
      → IsEnding cfg aborted error t
  failed :
      aborted ≡ false
      → IsCallError cfg error t
      → is_retryable error ≡ false
      → t.consecutive_failures < 3
      → IsEnding cfg aborted error t
  natural :
      aborted ≡ false
      → error ≡ nil
      → t.followup ≡ []
      → IsAnswered t.messages
      → IsEnding cfg aborted error t

-- What holds behind a turn, by whether the loop goes on.
abbrev pub EndsAs : {F : Type 0} {w : World F} → Config F → Next → State w → Type 0
EndsAs cfg again t = t.consecutive_failures < 3
EndsAs cfg (done aborted error) t = IsEnding cfg aborted error t

module _ {F : Type 0} {w : World F} (cfg : Config F) where
  -- only the world counts
  pub moved :
      {e : Error} {s t : State w} → IsCallError cfg e s → s.world ≡ t.world → IsCallError cfg e t
  moved h same = record {
    request = h.request;
    at = h.at;
    left = h.left;
    returned = h.returned;
    world = h.world ∙ same;
  }

  on_error-EndsAs :
      (e : Error) (s : State w)
      → IsCallError cfg e s
      → s.consecutive_failures < 3
      → EndsAs cfg (on_error e s).0 (on_error e s).1
  unfolding on_error
  on_error-EndsAs e s call few = elim (Bool-cases (leb 3 (suc s.consecutive_failures))) [
    | inl b ↦ rw (on_error, b) (broken refl _ e refl (moved call refl) (ground (arith, few, b)))
    | inr b ↦ elim (Bool-cases (is_retryable e)) [
      | inl c ↦ rw (on_error, b, c) (ground (arith, b))
      | inr c ↦ rw (on_error, b, c) (failed refl (moved call refl) c (ground (arith, b)))
    ]
  ]

  next_message-EndsAs :
      (ms : List Message) (s : State w)
      → s.followup ≡ ms
      → IsAnswered s.messages
      → s.consecutive_failures < 3
      → EndsAs cfg (next_message ms s).0 (next_message ms s).1
  next_message-EndsAs [] s e h few = natural refl refl e h
  next_message-EndsAs (m ∷ rest) s e h few = few

  inject-failures : (s : State w) → (inject s).consecutive_failures ≡ s.consecutive_failures
  unfolding inject
  inject-failures s = refl

  act-EndsAs :
      (tcs : List ToolCallData) (before : List Message) (m : Message) (s : State w)
      → s.messages ≡ before ++ m ∷ []
      → m.role ≡ Role.assistant
      → m.tool_calls ≡ map to_call tcs
      → s.consecutive_failures < 3
      → EndsAs cfg (act cfg tcs s).0 (act cfg tcs s).1
  unfolding conclude
  act-EndsAs [] before m s e role calls few =
      let q = receive-Quiet s in
      next_message-EndsAs (receive s).followup (receive s) refl
        (record {
          before = before;
          last = m;
          at_end = q.messages ∙ e;
          role = role;
          no_calls = calls;
        })
        (rw q.failures few)
  act-EndsAs (tc ∷ tcs) before m s e role calls few =
      let s1 = call_tools cfg (tc ∷ tcs) s in
      rw
        (inject-failures (receive s1)
          ∙ (receive-Quiet s1).failures
          ∙ (call_tools-Answered cfg (tc ∷ tcs) s).failures)
        few

  on_response-EndsAs :
      (resp : Response) (s : State w)
      → EndsAs cfg (on_response cfg resp s).0 (on_response cfg resp s).1
  unfolding on_response account response_to_message
  on_response-EndsAs resp s =
      let s1 = account cfg resp s in
      let q = check_context_window-Quiet cfg resp s1 in
      act-EndsAs (message_tool_calls resp.message) s.messages (response_to_message resp)
        (check_context_window cfg resp s1) q.messages refl refl (rw q.failures (omega arith))

  after_call-EndsAs :
      (r : Result Error Response) (s : State w)
      → ((e : Error) → r ≡ err e → IsCallError cfg e s)
      → s.consecutive_failures < 3
      → EndsAs cfg (after_call cfg (r, s)).0 (after_call cfg (r, s)).1
  after_call-EndsAs (ok resp) s call few = on_response-EndsAs resp s
  after_call-EndsAs (err e) s call few = on_error-EndsAs e s (call e refl) few

  ask-EndsAs : (s : State w) → s.consecutive_failures < 3 → EndsAs cfg (ask cfg s).0 (ask cfg s).1
  unfolding ask
  ask-EndsAs s few =
      let (req, s1) = build_request cfg s in
      let s2 = emit (Event.llm_request req.model (length req.messages)) s1 in
      let (r, s3) = call_llm cfg req s2 in
      after_call-EndsAs r s3
        (λ e p. record {
          request = req;
          at = s2;
          left = s3;
          returned = ap (λ x. (x, s3)) p;
          world = refl;
        })
        (rw ((call_llm-Quiet cfg req s2).failures ∙ (build_request-Quiet cfg s).failures) few)

module _ {F : Type 0} {w : World F} where
  pub turn-EndsAs :
      (cfg : Config F) (s : State w)
      → s.consecutive_failures < 3
      → EndsAs cfg (turn cfg s).0 (turn cfg s).1
  unfolding turn
  turn-EndsAs cfg s few =
      let limit = round_limit cfg.max_rounds in
      elim (Bool-cases (w.is_canceled s.world).0) [
        | inl b ↦
            rw (turn, b) (canceled refl refl s.world (ap (λ x. (x, (w.is_canceled s.world).1)) b))
        | inr b ↦ elim (Bool-cases (leb limit s.rounds)) [
          | inl c ↦ rw (turn, b, c) (exhausted refl refl (ground (arith, c)))
          | inr c ↦ rw (turn, b, c) (ask-EndsAs cfg _ few)
        ]
      ]
