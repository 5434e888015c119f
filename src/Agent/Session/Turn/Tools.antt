-- ===== src/Agent/Session/Turn/Tools.antt =====
-- internal/agent/session.go: the messages that a turn adds.
use dfgo.Prelude.{
  String, List, [], ◌∷◌, ◌++◌, Option, none, some, ◌≡◌, refl, sym, ap, ◌∙◌, ++_assoc, ++_nil,
}
use dfgo.Prelude.Result.{Result, ok, err}
use dfgo.Llm.Message.{ToolCallData}
use dfgo.Agent.Message.{Message, Role, ToolCall, tool_message}
use dfgo.Agent.Tool as Tool
use dfgo.Agent.Session.{Config, World, State, Event, emit, receive}
use dfgo.Agent.Session.Turn.{watch, answer, answer_or_error, call_tool, call_tools}
use dfgo.Agent.Session.Turn.Quiet.{
  IsQueued, Quiet, Quiet-other, Quiet-trans, receive-Quiet, watch-Quiet,
}

-- the call that a tool's message answers
abbrev pub answer_id : Message → Option String
answer_id m = elim m.role [
  | Role.tool ↦ elim m.tool_result [ none ↦ none | some r ↦ some r.tool_call_id ]
  | _ ↦ none
]

abbrev pub call_ids : List ToolCall → List (Option String)
call_ids [] = []
call_ids (c ∷ cs) = some c.id ∷ call_ids cs

abbrev pub data_ids : List ToolCallData → List (Option String)
data_ids [] = []
data_ids (c ∷ cs) = some c.id ∷ data_ids cs

abbrev pub answer_ids : List Message → List (Option String)
answer_ids [] = []
answer_ids (m ∷ ms) = answer_id m ∷ answer_ids ms

ids-append : (ms ns : List Message) → answer_ids (ms ++ ns) ≡ answer_ids ms ++ answer_ids ns
ids-append [] ns = refl
ids-append (m ∷ ms) ns = ap (λ xs. answer_id m ∷ xs) (ids-append ms ns)

-- A state behind some calls of tools: each has added one message, which answers it.
pub record Answered {F : Type 0} {w : World F} (tcs : List ToolCallData) (s t : State w)
    : Type 0 where
  pub rounds : t.rounds ≡ s.rounds
  pub answers : List Message
  pub messages : t.messages ≡ s.messages ++ answers
  pub failures : t.consecutive_failures ≡ s.consecutive_failures
  pub ids : answer_ids answers ≡ data_ids tcs
  pub queued : IsQueued s → IsQueued t

module _ {F : Type 0} {w : World F} where
  answer-Answered :
      (tc : ToolCallData) (r : Tool.Result) (s : State w) → Answered (tc ∷ []) s (answer tc r s)
  unfolding answer
  answer-Answered tc r s = record {
    rounds = refl;
    failures = refl;
    answers =
        tool_message (record {
          tool_call_id = tc.id;
          content = r.content;
          full_output = r.full_output;
          is_error = r.is_error;
        })
        ∷ [];
    messages = refl;
    ids = refl;
    queued = λ h. record { followup = h.followup; steering = h.steering };
  }

  Answered-after :
      (tcs : List ToolCallData) (s t u : State w) → Quiet s t → Answered tcs t u → Answered tcs s u
  Answered-after tcs s t u q a = record {
    rounds = a.rounds ∙ q.rounds;
    failures = a.failures ∙ q.failures;
    answers = a.answers;
    messages = a.messages ∙ ap (λ ms. ms ++ a.answers) q.messages;
    ids = a.ids;
    queued = λ h. a.queued (q.queued h);
  }

  Answered-cons :
      (tc : ToolCallData) (tcs : List ToolCallData) (s t u : State w)
      → Answered (tc ∷ []) s t
      → Answered tcs t u
      → Answered (tc ∷ tcs) s u
  Answered-cons tc tcs s t u a b = record {
    rounds = b.rounds ∙ a.rounds;
    failures = b.failures ∙ a.failures;
    answers = a.answers ++ b.answers;
    messages =
        b.messages
        ∙ ap (λ ms. ms ++ b.answers) a.messages
        ∙ ++_assoc s.messages a.answers b.answers;
    ids = ids-append a.answers b.answers ∙ rw (a.ids, b.ids) refl;
    queued = λ h. b.queued (a.queued h);
  }

  answer_or_error-Answered :
      (tc : ToolCallData) (r : Result String Tool.Result) (s : State w)
      → Answered (tc ∷ []) s (answer_or_error tc r s)
  answer_or_error-Answered tc (ok r) s = answer-Answered tc r s
  answer_or_error-Answered tc (err m) s =
      let s1 = emit (Event.tool_error tc.name m) s in
      Answered-after (tc ∷ []) s s1 _ (Quiet-other s s1 refl refl refl refl refl)
        (answer-Answered tc _ s1)

  call_tool-Answered :
      (cfg : Config F) (tc : ToolCallData) (s : State w) → Answered (tc ∷ []) s (call_tool cfg tc s)
  unfolding call_tool
  call_tool-Answered cfg tc s =
      let s1 = emit (Event.tool_start tc.name tc.id) s in
      let s2 = watch cfg tc (receive s1) in
      let (r, world) = Tool.execute s2.registry tc.name tc.arguments s2.world in
      let s3 : State w = record s2 { world = world } in
      Answered-after (tc ∷ []) s s3 _
        (Quiet-trans s s1 s3 (Quiet-other s s1 refl refl refl refl refl) (
          Quiet-trans s1 (receive s1) s3 (receive-Quiet s1) (
            Quiet-trans (receive s1) s2 s3 (watch-Quiet cfg tc (receive s1))
              (Quiet-other s2 s3 refl refl refl refl refl))))
        (answer_or_error-Answered tc r s3)

  pub call_tools-Answered :
      (cfg : Config F) (tcs : List ToolCallData) (s : State w)
      → Answered tcs s (call_tools cfg tcs s)
  unfolding call_tools
  call_tools-Answered cfg [] s = record {
    rounds = refl;
    failures = refl;
    answers = [];
    messages = sym (++_nil s.messages);
    ids = refl;
    queued = λ h. h;
  }
  call_tools-Answered cfg (tc ∷ tcs) s =
      Answered-cons tc tcs s (call_tool cfg tc s) _ (call_tool-Answered cfg tc s)
        (call_tools-Answered cfg tcs (call_tool cfg tc s))
