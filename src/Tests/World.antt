-- ===== src/Tests/World.antt =====
-- A world that answers at once, weights that are numbers, and graphs to run on.
use dfgo.Prelude.{ℕ, String, true, false, not, List, [], ◌∷◌, some, none, ◌==◌, ltb}
use dfgo.Prelude.Dict.{Dict}
use dfgo.Prelude.Result.{ok}
use dfgo.Prelude.Text.{chars}
use dfgo.Dot.Token.{Unicode}
use dfgo.Model.Attrs.{Floats}
use dfgo.Model.Graph.{Node, Edge, Graph}
use dfgo.Runtime.Outcome.{success_outcome, outcome_of, retry}
use dfgo.Runtime.Context.{new_context}
use dfgo.Runtime.Checkpoint.{VisitEntry}
use dfgo.Engine.State.{World, Handler, Registry, State}

abbrev pub ascii : Unicode
ascii = record { letter = λ _. false; digit = λ _. false }

abbrev pub still : World
still = record {
  W = Unit {0};
  is_done = λ w. (false, w);
  wait = λ p n w. (true, w);
  write_checkpoint = λ c w. (true, w);
  write_status = λ id o w. w;
  recorder = λ w. (0, 0);
  unmarshal_outcomes = λ text. none;
}

-- a weight is as large as its text is long
abbrev pub tally : Floats
tally = record {
  Float = ℕ;
  zero_float = 0;
  parse_float = λ s. some (chars s);
  ne = λ a b. not (a == b);
  gt = λ a b. ltb b a;
}

abbrev pub no_preamble : String → String → String → List VisitEntry → String
no_preamble mode run_id goal log = ""

abbrev pub succeeds : Handler still
succeeds mode n c g w = record { result = ok success_outcome; pctx = c; world = w }

abbrev pub retries : Handler still
retries mode n c g w = record { result = ok (outcome_of retry); pctx = c; world = w }

abbrev pub shapes : Registry still
shapes = record { by_type = []; by_shape = ("Mdiamond", succeeds) ∷ [] }

abbrev pub stubborn : Registry still
stubborn = record { by_type = []; by_shape = ("Mdiamond", retries) ∷ [] }

abbrev pub unregistered : Registry still
unregistered = record { by_type = []; by_shape = [] }

abbrev pub node : String → Dict String → ℕ → Node
node id attrs order = record { id = id; attrs = attrs; order = order }

abbrev pub edge : String → String → Dict String → ℕ → Edge
edge from to attrs order = record { from = from; to = to; attrs = attrs; order = order }

-- a start node that is a goal gate with one retry, and an exit
abbrev pub two_nodes : Graph
two_nodes = record {
  name = "p";
  nodes =
      node "s" (("shape", "Mdiamond") ∷ ("goal_gate", "true") ∷ ("max_retries", "1") ∷ []) 0
      ∷ node "e" (("shape", "Msquare") ∷ []) 1
      ∷ [];
  edges = edge "s" "e" [] 0 ∷ [];
  attrs = [];
  nodes_by_id = ("s", 0) ∷ ("e", 1) ∷ [];
}

abbrev pub started : State still
started = record {
  run_id = "r";
  pctx = new_context;
  retry_counters = [];
  completed = [];
  visit_log = [];
  events = [];
  saved = none;
  world = tt;
}
