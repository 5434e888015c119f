-- ===== src/Runtime/Checkpoint.antt =====
-- internal/attractor/runtime/checkpoint.go: what a checkpoint holds. `encoding/json` and the file
-- system are parameters: `Save` writes a temporary file and renames it.
use dfgo.Prelude.{ℕ, String, List}
use dfgo.Prelude.Dict.{Dict}
use dfgo.Runtime.Outcome.{StageStatus}

pub record VisitEntry : Type 0 where
  pub node_id : String
  pub status : StageStatus
  pub attempt : ℕ

pub record Checkpoint : Type 0 where
  pub run_id : String
  pub current_node : String
  pub completed : List String
  pub retry_counters : Dict ℕ
  pub context : Dict String
  pub logs : List String
  pub visit_log : List VisitEntry
  pub cxdb_context_id : ℕ
  pub cxdb_head_turn : ℕ
