-- ===== src/Tests/Handlers.antt =====
-- The handlers, the stylesheet and the walk at concrete inputs.
use dfgo.Prelude.{◌*◌, ◌<◌, ◌≤◌, String, [], ◌∷◌, Option, some, length, ◌≡◌, ◌↔◌, refl, true}
use dfgo.Prelude.Dict.{Dict, get, put, merge}
use dfgo.Prelude.Sort.{sort, insert}
use dfgo.Prelude.Text.{pos}
use dfgo.Model.Graph.{Node}
use dfgo.Runtime.Outcome.{Outcome, success_outcome, fail_outcome, transient}
use dfgo.Runtime.Context.{Context, lookup}
use dfgo.Prelude.{◌≢◌}
use dfgo.Prelude.Result.{err}
use dfgo.Style.Fuel.{parse_stylesheet-total}
use dfgo.Style.{
  parse_stylesheet, out_of_fuel, Stylesheet, universal, by_id, matches_from, merge_matches, resolve,
  matches,
}
use dfgo.Style.Cascade.{IsCascaded, resolve-IsCascaded}
use dfgo.Validate.Reach.{marked, reachable_from}
use dfgo.Validate.Reach.Walk.{reachable_from-Reaches}
use dfgo.Validate.Reach.Unseen.{Reaches}
use dfgo.Handlers.Join.{join_parallel_results, wait_all, first_success, k_of_n, quorum}
use dfgo.Handlers.Join.Policies.{Succeeds, good, join_parallel_results-Succeeds}
use dfgo.Handlers.FanIn.{execute}
use dfgo.Handlers.FanIn.Best.{IsFannedIn, execute-IsFannedIn}
use dfgo.Tests.World.{two_nodes, node}

abbrev branches : Dict Outcome
branches = ("b", success_outcome) ∷ ("a", success_outcome) ∷ ("c", fail_outcome "no" transient) ∷ []

join_parallel_results-Succeeds_example :
    (Succeeds (join_parallel_results branches [] wait_all (pos 2))
      ↔ (good [] branches ≡ length branches))
    × (Succeeds (join_parallel_results branches [] first_success (pos 2)) ↔ (0 < good [] branches))
    × (Succeeds (join_parallel_results branches [] k_of_n (pos 2)) ↔ (2 ≤ good [] branches))
    × (Succeeds (join_parallel_results branches [] quorum (pos 2))
        ↔ (length branches < 2 * good [] branches))
join_parallel_results-Succeeds_example = join_parallel_results-Succeeds branches [] 2

abbrev joined : Context
joined = record { entries = ("parallel.results", "{}") ∷ []; logs = [] }

abbrev marshal : Outcome → String
marshal o = o.failure_reason

abbrev unmarshal : String → Option (Dict Outcome)
unmarshal raw = some branches

execute-IsFannedIn_example : IsFannedIn branches (execute marshal unmarshal joined)
unfolding lookup get
execute-IsFannedIn_example =
    execute-IsFannedIn marshal unmarshal joined "{}" branches refl (λ e. cc) refl (λ e. cc)

reachable_from-Reaches_example :
    (marked (reachable_from two_nodes "s") "e" ≡ true) ↔ Reaches two_nodes "s" "e"
reachable_from-Reaches_example = reachable_from-Reaches two_nodes "s" "e"

-- * { model: small } and #s { model: large }
abbrev sheet : Stylesheet
sheet =
    record {
      selector = record { kind = by_id; value = "s"; spec = 2 };
      properties = ("model", "large") ∷ [];
    }
    ∷ record {
      selector = record { kind = universal; value = ""; spec = 0 };
      properties = ("model", "small") ∷ [];
    }
    ∷ []

abbrev a_node : Node
a_node = node "s" (("shape", "box") ∷ []) 0

resolve-IsCascaded_example : IsCascaded "model" "large" (matches_from 0 sheet a_node)
unfolding resolve matches_from matches merge_matches merge put get sort insert
resolve-IsCascaded_example = resolve-IsCascaded sheet a_node "model" "large" refl

abbrev first_node : Node
first_node = node "s" (("shape", "Mdiamond") ∷ ("goal_gate", "true") ∷ ("max_retries", "1") ∷ []) 0

parse_stylesheet-total_example :
    parse_stylesheet "* { model: small } #s { model: large" ≢ err out_of_fuel
parse_stylesheet-total_example = parse_stylesheet-total "* { model: small } #s { model: large"
