-- ===== src/Server/Runs/Change.antt =====
-- internal/server/runmgr/manager.go: what can happen to the runs, in any order.
use dfgo.Prelude.{ℕ, String, List, [], ◌∷◌, some, none, ◌≡◌}
use dfgo.Prelude.Dict.{get, put}
use dfgo.Prelude.Result.{Result}
use dfgo.Server.Broadcast.{Broadcaster}
use dfgo.Server.Broadcast.Reach.{Step}
use dfgo.Server.Runs.{Run, RunManager, executing, finish, run_defer, submit, cancel, cancel_each}

-- One run: the engine publishes and clients use the broadcaster, which only the goroutine closes;
-- `Execute` returns; and the deferred calls are made.
pub data Change {E : Type 0} : Run E → Run E → Type 0 where
  used :
      (r : Run E) (c : Broadcaster E)
      → Step r.broadcaster c
      → c.closed ≡ r.broadcaster.closed
      → Change r (record r { broadcaster = c })
  ended :
      (r : Run E) (result : Result String (Unit {0})) (now : ℕ)
      → r.goroutine ≡ executing
      → Change r (finish result now r)
  deferred : (r : Run E) → Change r (run_defer r)

-- `uuid.New` gives an ID that no run has.
pub data Event {E : Type 0} : RunManager E → RunManager E → Type 0 where
  submitted :
      (m : RunManager E) (id : String) (prepared : Result String String) (now : ℕ)
      → get m id ≡ none
      → Event m (submit id prepared now m).1
  asked : (m : RunManager E) (id : String) → Event m (cancel id m).1
  changed :
      (m : RunManager E) (id : String) (r q : Run E)
      → get m id ≡ some r
      → Change r q
      → Event m (put m id q)

pub data Later {E : Type 0} (m : RunManager E) : RunManager E → Type 0 where
  now : Later m m
  after : {p q : RunManager E} → Later m p → Event p q → Later m q

module _ {E : Type 0} where
  pub Later-trans : {m p q : RunManager E} → Later m p → Later p q → Later m q
  Later-trans h now = h
  Later-trans h (after k e) = after (Later-trans h k) e

  -- `Shutdown` cancels one run behind the other
  pub cancel_each-Later : (ids : List String) (m : RunManager E) → Later m (cancel_each ids m)
  unfolding cancel_each
  cancel_each-Later [] m = now
  cancel_each-Later (id ∷ ids) m =
      Later-trans (after now (asked m id)) (cancel_each-Later ids (cancel id m).1)
