-- ===== src/Handlers/Basic.antt =====
-- internal/attractor/handler: start.go, exit.go, conditional.go, wait_human.go and tool.go, with
-- interviewer/interviewer.go. The interviewer, the shell and its clock are parameters.
pub mod Route
use dfgo.Prelude.{
  ℕ, String, Bool, true, false, str_eq, ltb, if◌then◌else◌, List, [], ◌∷◌, length, Option, some,
  none,
}
use dfgo.Prelude.Dict.{index}
use dfgo.Prelude.Result.{Result, ok, err}
use dfgo.Prelude.Text.{ℤ, pos, append}
use dfgo.Model.Graph.{Node, Edge, Graph, out_edges}
use dfgo.Model.Attrs.{string_attr, int_attr}
use dfgo.Runtime.Outcome.{
  Outcome, outcome_of, success, success_outcome, fail_outcome, deterministic, transient,
}

-- `StartHandler`, `ExitHandler` and `ConditionalHandler`
abbrev pub pass_through : Outcome
pass_through = success_outcome

pub data QuestionType : Type 0 where
  yes_no multiple_choice freeform confirmation : QuestionType

pub record Question : Type 0 where
  pub type : QuestionType
  pub prompt : String
  pub options : List String
  pub default_answer : String

pub record Answer : Type 0 where
  pub text : String
  pub selected : ℤ

abbrev pub labels : List Edge → List String
labels [] = []
labels (e ∷ es) =
    let label = index e.attrs "label" in if str_eq label "" then labels es else label ∷ labels es

-- fewer than two labels are none
unfoldable pub collect_options : Node → Graph → List String
collect_options n g =
    let opts = labels (out_edges g n.id) in if ltb (length opts) 2 then [] else opts

unfoldable pub question : Node → Graph → Question
unfolding collect_options string_attr
question n g =
    let opts = collect_options n g in
    record {
      type = if ltb 0 (length opts) then QuestionType.multiple_choice else QuestionType.yes_no;
      prompt = string_attr n.attrs "prompt" (string_attr n.attrs "label" "Approve?");
      options = opts;
      default_answer = "";
    }

abbrev pub answered : Node → Result String Answer → Outcome
answered n (err e) = fail_outcome (append "interviewer error: " e) deterministic
answered n (ok a) = record success_outcome {
  preferred_label = a.text;
  context_updates = (append n.id ".answer", a.text) ∷ [];
}

-- `WaitHumanHandler.Execute`; `ask` is the interviewer's, on the state W
module _ {W : Type 0} (ask : Question → W → Result String Answer × W) where
  unfoldable pub wait_human : Node → Graph → W → Outcome × W
  unfolding question
  wait_human n g w = let (r, w1) = ask (question n g) w in (answered n r, w1)

-- How `cmd.Run` ends: with its error, after the deadline or not, or with the outputs.
pub data CommandEnd : Type 0 where
  ran : String → String → CommandEnd
  timed_out : CommandEnd
  broke : String → String → CommandEnd

abbrev pub tool_outcome : Node → CommandEnd → Outcome
tool_outcome n (ran out errors) = record success_outcome {
  context_updates = (append n.id ".stdout", out) ∷ (append n.id ".stderr", errors) ∷ [];
}
tool_outcome n timed_out = fail_outcome "tool timed out" transient
tool_outcome n (broke e errors) =
    fail_outcome (append "tool failed: " (append e (append "\nstderr: " errors))) transient

-- `ToolHandler.Execute`; `command` runs a text in the shell for so many seconds
module _ {W : Type 0} (command : String → ℤ → W → CommandEnd × W) where
  unfoldable pub tool : Node → Graph → W → Outcome × W
  unfolding string_attr int_attr
  tool n g w =
      let text = string_attr n.attrs "tool_command" (string_attr n.attrs "command" "") in
      if str_eq text ""
      then (fail_outcome "no command attribute on tool node" deterministic, w)
      else let (end, w1) = command text (int_attr n.attrs "timeout" (pos 30)) w in
        (tool_outcome n end, w1)
