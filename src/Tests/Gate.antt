-- ===== src/Tests/Gate.antt =====
-- The human's gate and the manager at concrete inputs.
use dfgo.Prelude.{ℕ, suc, ◌==◌, String, true, false, if◌then◌else◌, [], ◌∷◌, some, none, ◌≡◌, refl}
use dfgo.Prelude.Dict.{index, get}
use dfgo.Prelude.Result.{Result, ok}
use dfgo.Prelude.Sort.{sort}
use dfgo.Prelude.Text.{pos}
use dfgo.Model.Graph.{Edge, Graph, out_edges}
use dfgo.Runtime.Outcome.{success_outcome}
use dfgo.Runtime.Context.{Context}
use dfgo.EdgeSelect.{condition_holds, select}
use dfgo.Handlers.Basic.{Question, Answer, collect_options, wait_human, question}
use dfgo.Handlers.Basic.Route.{wait_human-select}
use dfgo.Handlers.ManagerLoop.{Manager, Settings, manage}
use dfgo.Handlers.ManagerLoop.Cycles.{IsManaged, nothing_met, ran, counted}
use dfgo.Handlers.ManagerLoop.Course.{IsSupervised, manage-IsSupervised}
use dfgo.Tests.World.{node, edge, tally}

-- a gate that may be left by Yes or by No
abbrev gate : Graph
gate = record {
  name = "p";
  nodes = node "g" [] 0 ∷ node "y" [] 1 ∷ node "n" [] 2 ∷ [];
  edges =
      edge "g" "y" (("label", "Yes") ∷ ("weight", "heavy") ∷ []) 0
      ∷ edge "g" "n" (("label", "No") ∷ []) 1
      ∷ [];
  attrs = [];
  nodes_by_id = ("g", 0) ∷ ("y", 1) ∷ ("n", 2) ∷ [];
}

abbrev no : Answer
no = record { text = "No"; selected = pos 1 }

abbrev says_no : Question → ℕ → Result String Answer × ℕ
says_no q n = (ok no, suc n)

abbrev empty : Context
empty = record { entries = []; logs = [] }

wait_human-select_example :
    let o = (wait_human says_no (node "g" [] 0) gate 0).0 in
    (e : Edge) × (select tally gate "g" o empty ≡ some e) × (index e.attrs "label" ≡ "No")
unfolding wait_human collect_options out_edges condition_holds question sort index
wait_human-select_example =
    wait_human-select tally says_no (node "g" [] 0) gate empty no 1 0 1 refl refl refl

-- a child that reports success with its third run
abbrev third_time : Manager
third_time = record {
  W = ℕ;
  child = λ children n. (ok success_outcome, suc n);
  is_done = λ n. (false, n);
  wait = λ n. (true, n);
  pctx = λ n. record {
    entries = if n == 3 then ("stack.child.status", "SUCCESS") ∷ [] else [];
    logs = [];
  };
  error_text = λ x. "no condition";
}

abbrev observing : Settings
observing = record { children = "worker" ∷ []; observe = true; waits = true; stop = none }

three_runs :
    manage (counted third_time) observing (pos 10) (nothing_met, 0)
    ≡ (success_outcome, (ran 3 success_outcome, 3))
unfolding manage get
three_runs = refl

-- the child's success is not seen where it comes with the last run
two_runs : (manage (counted third_time) observing (pos 3) (nothing_met, 0)).1.0.runs ≡ 3
unfolding manage get
two_runs = refl

manage-IsSupervised_example :
    IsManaged third_time observing 10
      (manage (counted third_time) observing (pos 10) (nothing_met, 0))
    × IsSupervised third_time observing 10 0 (manage third_time observing (pos 10) 0)
manage-IsSupervised_example = manage-IsSupervised third_time observing (pos 10) 0
