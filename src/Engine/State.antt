-- ===== src/Engine/State.antt =====
-- internal/attractor/engine.go and events/event.go: the state that a run changes, the events it
-- emits and the parameters it runs with.
use dfgo.Prelude.{ℕ, String, Bool, List, [], ◌∷◌, ◌++◌, Option, some, none}
use dfgo.Prelude.Dict.{Dict, get}
use dfgo.Prelude.Result.{Result}
use dfgo.Prelude.Text.{ℤ}
use dfgo.Model.Graph.{Node, Graph}
use dfgo.Runtime.Outcome.{StageStatus, Outcome}
use dfgo.Runtime.Context.{Context}
use dfgo.Runtime.Checkpoint.{VisitEntry, Checkpoint}
use dfgo.Runtime.Retry.{RetryPolicy}

-- An event is kept with its node and status; the rest of its data is left out.
pub data Event : Type 0 where
  pipeline_started : String → Event
  stage_started stage_failed : String → Event
  stage_completed : String → StageStatus → Event
  stage_retrying : String → ℕ → ℤ → Event
  checkpoint_saved : String → Event
  pipeline_completed pipeline_failed : Event

pub data RunError : Type 0 where
  no_start_node canceled : RunError
  node_not_found no_handler gate_failed no_matching_edge : String → RunError
  gate_unsatisfied : String → ℤ → RunError
  -- what a handler returned as its error
  execute_failed : String → String → RunError
  -- a field of a nil node is read: Go panics
  nil_node : RunError

-- What is outside the program: Go's context, its timers, the file system, the CXDB service and the
-- JSON text that the parallel handler leaves. `W` is its state.
pub record World : Type 1 where
  pub W : Type 0
  -- ctx.Done() is closed
  pub is_done : W → Bool × W
  -- the delay of a policy before an attempt: true once it has passed, false if the context ends first
  pub wait : RetryPolicy → ℕ → W → Bool × W
  -- Checkpoint.Save: false on an error
  pub write_checkpoint : Checkpoint → W → Bool × W
  pub write_status : String → Outcome → W → W
  -- ContextID and HeadTurn of the recorder, zeros without one
  pub recorder : W → ℕ × ℕ
  -- json.Unmarshal into map[string]runtime.Outcome
  pub unmarshal_outcomes : String → Option (Dict Outcome)

-- What a handler leaves: its outcome or error, the context and the world.
pub record Handled (w : World) : Type 0 where
  pub result : Result String Outcome
  pub pctx : Context
  pub world : w.W

-- An implementation of `handler.Handler` with what the engine wires into it: it gets the fidelity
-- mode, and runs its children itself.
abbrev pub Handler : World → Type 0
Handler w = String → Node → Context → Graph → w.W → Handled w

pub record Registry (w : World) : Type 0 where
  pub by_type : Dict (Handler w)
  pub by_shape : Dict (Handler w)

-- The fields of `Engine` that change, the events emitted so far, and `checkpoint.json`.
pub record State (w : World) : Type 0 where
  pub run_id : String
  pub pctx : Context
  pub retry_counters : Dict ℕ
  pub completed : Dict Bool
  pub visit_log : List VisitEntry
  pub events : List Event
  pub saved : Option Checkpoint
  pub world : w.W

-- How a turn of the loop in `execute` ends: `currentID` is set, `break`, or an error is returned.
pub data Next : Type 0 where
  goto : String → Next
  stop : Next
  failed : RunError → Next

-- retryCounters[id], zero on a missing key
abbrev pub count_of : Dict ℕ → String → ℕ
count_of counters id = elim (get counters id) [ none ↦ 0 | some n ↦ n ]

module _ {w : World} where
  abbrev pub emit : Event → State w → State w
  emit e s = record s { events = s.events ++ e ∷ [] }

  unfoldable pub counter : State w → String → ℕ
  counter s id = count_of s.retry_counters id
