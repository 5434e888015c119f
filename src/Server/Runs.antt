-- ===== src/Server/Runs.antt =====
-- internal/server/runmgr/manager.go: the runs of the server. A run has its status, its context, its
-- broadcaster (the events are of any type E) and the goroutine that executes it. The engine, the
-- interviewer and the logs are left out; a time is a number.
pub mod Change
pub mod Sound
pub mod Final
use dfgo.Prelude.{
  ℕ, Bool, true, false, String, if◌then◌else◌, [], ◌∷◌, List, Option, some, none, map,
}
use dfgo.Prelude.Dict.{Dict, get, put}
use dfgo.Prelude.Result.{Result, ok, err}
use dfgo.Server.Broadcast.{Broadcaster, new_broadcaster, close}

pub data RunStatus : Type 0 where
  pending running completed failed canceled : RunStatus

-- How far the goroutine of a run is: in `Execute`, then before each of its three deferred calls
-- (cancel, bc.Close and wg.Done), then at its end.
pub data Goroutine : Type 0 where
  executing recorded released drained done : Goroutine

-- `Run`; is_canceled says that the run's context has ended.
pub record Run (E : Type 0) : Type 0 where
  pub id : String
  pub status : RunStatus
  pub pipeline : String
  pub started_at : ℕ
  pub completed_at : Option ℕ
  pub error : String
  pub broadcaster : Broadcaster E
  pub is_canceled : Bool
  pub goroutine : Goroutine

-- the fields that `Snapshot` copies
pub record Snapshot : Type 0 where
  pub id : String
  pub status : RunStatus
  pub pipeline : String
  pub started_at : ℕ
  pub completed_at : Option ℕ
  pub error : String

pub data RunError : Type 0 where
  prepare : String → RunError
  not_found : String → RunError

abbrev pub RunManager : Type 0 → Type 0
RunManager E = Dict (Run E)

module _ {E : Type 0} where
  abbrev pub new_run_manager : RunManager E
  new_run_manager = []

  abbrev pub snapshot : Run E → Snapshot
  snapshot r = record {
    id = r.id;
    status = r.status;
    pipeline = r.pipeline;
    started_at = r.started_at;
    completed_at = r.completed_at;
    error = r.error;
  }

  abbrev pub set_completed : RunStatus → String → ℕ → Run E → Run E
  set_completed s msg now r = record r { status = s; completed_at = some now; error = msg }

  abbrev pub canceled_run : Run E → Run E
  canceled_run r = record r { is_canceled = true }

  -- The result of `engine.Execute` is recorded.
  abbrev pub outcome_of_run : Result String (Unit {0}) → ℕ → Run E → Run E
  outcome_of_run (ok _) now r = set_completed completed "" now r
  outcome_of_run (err e) now r =
      if r.is_canceled
      then set_completed canceled "canceled" now r
      else set_completed failed e now r

  abbrev pub finish : Result String (Unit {0}) → ℕ → Run E → Run E
  finish result now r = record (outcome_of_run result now r) { goroutine = recorded }

  -- the next of the deferred calls
  abbrev pub defer_at : Goroutine → Run E → Run E
  defer_at executing r = r
  defer_at recorded r = record (canceled_run r) { goroutine = released }
  defer_at released r = record r { broadcaster = close r.broadcaster; goroutine = drained }
  defer_at drained r = record r { goroutine = done }
  defer_at done r = r

  abbrev pub run_defer : Run E → Run E
  run_defer r = defer_at r.goroutine r

  abbrev pub new_run : String → String → ℕ → Run E
  new_run id pipeline now = record {
    id = id;
    status = running;
    pipeline = pipeline;
    started_at = now;
    completed_at = none;
    error = "";
    broadcaster = new_broadcaster;
    is_canceled = false;
    goroutine = executing;
  }

  -- `Submit` with a new ID and the name that `Prepare` gives, or its error
  unfoldable pub submit :
      String → Result String String → ℕ → RunManager E → Result RunError String × RunManager E
  submit id (err e) now m = (err (prepare e), m)
  submit id (ok pipeline) now m = (ok id, put m id (new_run id pipeline now))

  unfoldable pub cancel : String → RunManager E → Result RunError (Unit {0}) × RunManager E
  cancel id m = elim (get m id) [
    | none ↦ (err (not_found id), m)
    | some r ↦ (ok tt, put m id (canceled_run r))
  ]

  -- `Shutdown` on the IDs of the runs it has read, then the wait for their goroutines
  unfoldable pub cancel_each : List String → RunManager E → RunManager E
  unfolding cancel
  cancel_each [] m = m
  cancel_each (id ∷ ids) m = cancel_each ids (cancel id m).1
