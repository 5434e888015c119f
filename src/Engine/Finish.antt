-- ===== src/Engine/Finish.antt =====
-- internal/attractor/engine.go: what a run that ends without an error has reached.
use dfgo.Prelude.{String, true, false, List, [], some, ◌≡◌, ◌≢◌, ◌⊎◌, All}
use dfgo.Prelude.Dict.{Dict, get}
use dfgo.Model.Graph.{Node, Graph, has_shape, node_by_id, out_edges}
use dfgo.Model.Attrs.{bool_attr}
use dfgo.Runtime.Outcome.{Outcome, StageStatus, is_success_status}
use dfgo.Runtime.Checkpoint.{VisitEntry}
use dfgo.Engine.State.{World, State, Next, goto, stop, failed}
use dfgo.Engine.Gates.{latest_from, satisfied}
use dfgo.Engine.Gates.Latest.{IsLast}

-- In a visit log, the last visit of a node that is a goal gate succeeded.
abbrev pub GateMet : List VisitEntry → Node → Type 0
GateMet log n =
    bool_attr n.attrs "goal_gate" false ≡ true
    → (st : StageStatus) × IsLast log n.id st × (is_success_status st ≡ true)

-- What the code looks at for it.
abbrev GateHeld : List VisitEntry → Node → Type 0
GateHeld log n =
    bool_attr n.attrs "goal_gate" false ≡ true → satisfied (get (latest_from [] log) n.id) ≡ true

abbrev pub Named : Node → Type 0
Named n = n.id ≢ ""

-- The run stopped at a node that is no exit and has no way on.
pub record IsDeadEnd (g : Graph) : Type 0 where
  pub id : String
  pub node : Node
  pub there : node_by_id g id ≡ some node
  pub no_exit : has_shape "Msquare" node ≡ false
  pub no_way_on : out_edges g id ≡ []

module _ {w : World} where
  abbrev pub Finished : Graph → State w → Type 0
  Finished g t = All (GateMet t.visit_log) g.nodes ⊎ IsDeadEnd g

  abbrev pub Finishes : Graph → Next × State w → Type 0
  Finishes g (stop, t) = Finished g t
  Finishes g (goto id, t) = Unit
  Finishes g (failed x, t) = Unit
