-- ===== src/Engine/Lifecycle.antt =====
-- internal/attractor/engine.go: `Prepare`, `Execute` and what they are put together from.
pub mod Ready
pub mod Resume
use dfgo.Prelude.{
  ℕ, zero, suc, String, Bool, true, false, if◌then◌else◌, List, [], ◌∷◌, ◌++◌, Option, some, none,
  str_eq, map, length,
}
use dfgo.Prelude.Dict.{Dict, get, put, index}
use dfgo.Prelude.Result.{Result, ok, err, ◌>>=◌}
use dfgo.Dot.Token.{Unicode}
use dfgo.Dot.Parser.Monad.{ParseError}
use dfgo.Dot.Parser.{parse}
use dfgo.Model.Graph.{Node, Graph, start_node}
use dfgo.Model.Attrs.{Floats}
use dfgo.Style.{StyleError, parse_stylesheet, apply}
use dfgo.Validate.Diagnostic.{has_errors, errors}
use dfgo.Validate.Runner.{builtin_rules}
use dfgo.Validate.Runner
use dfgo.Runtime.Context.{Context, new_context, store, merge_all, append_log}
use dfgo.Runtime.Checkpoint.{VisitEntry, Checkpoint}
use dfgo.Engine.State.{
  pipeline_started, pipeline_completed, pipeline_failed, RunError, no_start_node, World, Registry,
  State, emit,
}
use dfgo.Engine.Node.{save_checkpoint, complete_all}
use dfgo.Engine.Step.{steps}

pub data PrepareError : Type 0 where
  parse_failed : ParseError → PrepareError
  stylesheet_failed : StyleError → PrepareError
  validation_failed : ℕ → PrepareError

unfoldable pub apply_stylesheet : Graph → Result PrepareError Graph
apply_stylesheet g = elim (get g.attrs "model_stylesheet") [
  | none ↦ ok g
  | some src ↦
      if str_eq src ""
      then ok g
      else elim (parse_stylesheet src) as (λ _. Result PrepareError Graph) [
        | err x ↦ err (stylesheet_failed x)
        | ok ss ↦ ok (apply ss g)
      ]
]

unfoldable pub validate : List String → Graph → Result PrepareError Graph
validate known g =
    let diags = Runner.run (builtin_rules known) g in
    if has_errors diags then err (validation_failed (length (errors diags))) else ok g

abbrev pub parse_graph : Unicode → String → Result PrepareError Graph
parse_graph u src = elim (parse u src) [ err x ↦ err (parse_failed x) | ok g ↦ ok g ]

-- The phases before `initialize`, with the types of the registry.
unfoldable pub prepare : Unicode → List String → String → Result PrepareError Graph
prepare u known src = parse_graph u src >>= apply_stylesheet >>= validate known

abbrev append_logs : Context → List String → Context
append_logs c [] = c
append_logs c (entry ∷ entries) = append_logs (append_log c entry) entries

abbrev pub initial_context : Graph → Dict String → Context
initial_context g given =
    let goal = index g.attrs "goal" in
    let c =
      if str_eq goal ""
      then new_context
      else store (store new_context "goal" goal) "graph.goal" goal in
    merge_all c given

-- the node to start at: that of the checkpoint, if it names one
abbrev pub start_at : String → Option Checkpoint → String
start_at start none = start
start_at start (some cp) = if str_eq cp.current_node "" then start else cp.current_node

module _ {w : World} where
  unfoldable pub known_types : Registry w → List String
  known_types r = map (λ (t, h). t) r.by_type

  -- The state of a run that has no checkpoint to go on from.
  unfoldable pub fresh : Graph → String → Dict String → w.W → State w
  fresh g run_id given world = record {
    run_id = run_id;
    pctx = initial_context g given;
    retry_counters = [];
    completed = [];
    visit_log = [];
    events = [];
    saved = none;
    world = world;
  }

  unfoldable pub restore : Checkpoint → State w → State w
  unfolding merge_all
  restore cp s = complete_all cp.completed (record s {
    pctx = append_logs (merge_all s.pctx cp.context) cp.logs;
    retry_counters = cp.retry_counters;
    visit_log = cp.visit_log;
  })

  -- `loaded` is what LoadCheckpoint returns; `generated` is the UUID of a run that is not resumed.
  unfoldable pub initialize :
      Graph → String → String → Dict String → Option Checkpoint → w.W → State w
  unfolding fresh restore
  initialize g generated resume given loaded world =
      if str_eq resume "" then fresh g generated given world else elim loaded [
        | none ↦ fresh g resume given world
        | some cp ↦ restore cp (fresh g resume given world)
      ]

  module _ (fl : Floats) (preamble : String → String → String → List VisitEntry → String)
      (registry : Registry w) where
    unfoldable pub execute :
        ℕ → Graph → Option Checkpoint → State w → Option (Option RunError × State w)
    execute fuel g loaded s = elim (start_node g) [
      | none ↦ some (some no_start_node, s)
      | some start ↦
          let id = start_at start.id loaded in
          steps fl preamble registry fuel g id (emit (pipeline_started id) s)
    ]

    unfoldable pub finalize : State w → State w
    finalize s = emit pipeline_completed (save_checkpoint "" s)

    abbrev pub conclude : Option (Option RunError × State w) → Option (Option RunError × State w)
    conclude none = none
    conclude (some (some x, s)) = some (some x, emit pipeline_failed s)
    conclude (some (none, s)) = some (none, finalize s)

    -- `Execute` after `Prepare`
    unfoldable pub execute_and_finalize :
        ℕ → Graph → Option Checkpoint → State w → Option (Option RunError × State w)
    execute_and_finalize fuel g loaded s = conclude (execute fuel g loaded s)
