-- ===== src/Tests/Engine.antt =====
-- Runs of the engine on small graphs.
use dfgo.Prelude.{
  String, false, str_eq, eq_iff, ◌+◌, ◌≤◌, ◌≡◌, ◌≢◌, Option, some, none, refl, arith, [], ◌∷◌,
}
use dfgo.Prelude.Dict.{get, put, index, merge}
use dfgo.Prelude.Text.{
  atoi, parse_bool, itoa, digits, digits_value, is_lower_of, is_space, signed_digits, trim_left,
  trim_right, trim_space,
}
use dfgo.Prelude.Sort.{sort, insert}
use dfgo.Model.Graph.{node_by_id, out_edges}
use dfgo.Model.Attrs.{int_attr, bool_attr, string_attr, float_attr}
use dfgo.EdgeSelect.{
  select, select_from, condition_holds, by_label, by_suggestion, by_weight, env_of,
  filter_unconditional, heavier,
}
use dfgo.Fidelity.Mode
use dfgo.Runtime.Context.{store, merge_all, lookup, snapshot}
use dfgo.Runtime.Retry.{policy_by_name}
use dfgo.Engine.State.{RunError, gate_failed, State, counter}
use dfgo.Engine.Gates.{latest_from, first_unsatisfied, check_goal_gates, resolve_retry_target}
use dfgo.Engine.Node.{
  lookup_handler, checkpoint, save_checkpoint, count_retry, merge_updates, start_stage,
  apply_outcome, execute_node,
}
use dfgo.Engine.Step.{
  retry_limit, exhausted, may_retry, exit_step, backoff, follow_edge, leave, settle, after,
  run_node, step, steps,
}
use dfgo.Engine.Bound.Back.{retries, retries_bounded}
use dfgo.Engine.Bound.{allowed}
use dfgo.Engine.Saved.{IsSavedOn, step-IsSavedOn}
use dfgo.Engine.History.{Extends, steps-Extends}
use dfgo.Engine.Targets.{IsSound}
use dfgo.Engine.Lands.{steps-IsExpected}
use dfgo.Engine.Parts.{IsExpected}
use dfgo.Tests.World.{still, tally, no_preamble, shapes, stubborn, two_nodes, started, node}

abbrev ended : Option (Option RunError × State still) → State still
ended none = started
ended (some (x, t)) = t

abbrev good_end : State still
good_end = ended (steps tally no_preamble shapes 5 two_nodes "s" started)

-- a start node whose handler asks for retries for ever
abbrev stubborn_end : State still
stubborn_end = ended (steps tally no_preamble stubborn 5 two_nodes "s" started)

abbrev error_of : Option (Option RunError × State still) → Option RunError
error_of none = none
error_of (some (x, t)) = x

abbrev stubborn_error : Option RunError
stubborn_error = error_of (steps tally no_preamble stubborn 5 two_nodes "s" started)

-- in four turns from the start the stubborn node goes back to itself once
stubborn-retries : retries tally no_preamble stubborn 4 two_nodes "s" "s" started ≡ 1
unfolding step node_by_id get index run_node execute_node after settle leave follow_edge select
    select_from out_edges sort condition_holds by_label by_suggestion by_weight env_of
    filter_unconditional heavier check_goal_gates first_unsatisfied latest_from resolve_retry_target
    apply_outcome checkpoint count_retry lookup_handler merge_updates save_checkpoint start_stage
    counter backoff exhausted exit_step may_retry retry_limit Mode.resolve Mode.valid bool_attr
    float_attr int_attr string_attr merge put insert atoi digits digits_value is_lower_of is_space
    itoa parse_bool signed_digits trim_left trim_right trim_space lookup merge_all snapshot store
    policy_by_name
stubborn-retries = refl

ne_by_test : (s t : String) → str_eq s t ≡ false → s ≢ t
ne_by_test s t h e = let b = (eq_iff s t).1 e in cc

retries_bounded_example :
    retries tally no_preamble stubborn 4 two_nodes "s" "s" started + counter started "s"
    ≤ allowed (
        retry_limit two_nodes
          (node "s" (("shape", "Mdiamond") ∷ ("goal_gate", "true") ∷ ("max_retries", "1") ∷ []) 0))
unfolding node_by_id get index out_edges sort insert counter
retries_bounded_example =
    retries_bounded tally no_preamble stubborn two_nodes "s" _ refl (ne_by_test "e" "s" refl, tt)
      (λ e. cc) (λ e. cc) 4 "s" started (λ id n e. omega arith)

steps-Extends_example : Extends started stubborn_end
unfolding steps step node_by_id get index run_node execute_node after settle leave follow_edge
    select select_from out_edges sort condition_holds by_label by_suggestion by_weight env_of
    filter_unconditional heavier check_goal_gates first_unsatisfied latest_from resolve_retry_target
    apply_outcome checkpoint count_retry lookup_handler merge_updates save_checkpoint start_stage
    counter backoff exhausted exit_step may_retry retry_limit Mode.resolve Mode.valid bool_attr
    float_attr int_attr string_attr merge put insert atoi digits digits_value is_lower_of is_space
    itoa parse_bool signed_digits trim_left trim_right trim_space lookup merge_all snapshot store
    policy_by_name
steps-Extends_example =
    steps-Extends tally no_preamble stubborn 5 two_nodes "s" started stubborn_error stubborn_end
      refl

two_nodes-IsSound : IsSound two_nodes
unfolding get node_by_id
two_nodes-IsSound = record { indexed = record { at = λ id. ground arith }; leads = ((λ e. cc), tt) }

steps-IsExpected_example : IsExpected (gate_failed "s")
unfolding steps step node_by_id get index run_node execute_node after settle leave follow_edge
    select select_from out_edges sort condition_holds by_label by_suggestion by_weight env_of
    filter_unconditional heavier check_goal_gates first_unsatisfied latest_from resolve_retry_target
    apply_outcome checkpoint count_retry lookup_handler merge_updates save_checkpoint start_stage
    counter backoff exhausted exit_step may_retry retry_limit Mode.resolve Mode.valid bool_attr
    float_attr int_attr string_attr merge put insert atoi digits digits_value is_lower_of is_space
    itoa parse_bool signed_digits trim_left trim_right trim_space lookup merge_all snapshot store
    policy_by_name
steps-IsExpected_example =
    steps-IsExpected two_nodes two_nodes-IsSound tally no_preamble stubborn 5 "s" started
      (gate_failed "s") stubborn_end (λ e. cc) refl

step-IsSavedOn_example : IsSavedOn (step tally no_preamble stubborn two_nodes "s" started)
unfolding node_by_id get index
step-IsSavedOn_example =
    step-IsSavedOn (λ cp v. refl) tally two_nodes
      (node "s" (("shape", "Mdiamond") ∷ ("goal_gate", "true") ∷ ("max_retries", "1") ∷ []) 0) "s"
      no_preamble stubborn started refl refl
