-- ===== src/Engine/Step.antt =====
-- internal/attractor/engine.go: one turn of the loop of `execute`, and the loop.
pub mod Changes
pub mod Keeps
use dfgo.Prelude.{
  ℕ, zero, suc, String, Bool, true, false, ◌&&◌, not, ◌==◌, if◌then◌else◌, List, [], ◌∷◌, Option,
  some, none, str_eq,
}
use dfgo.Prelude.Dict.{index}
use dfgo.Prelude.Result.{Result, ok, err}
use dfgo.Prelude.Text.{ℤ, pos, lt_int}
use dfgo.Model.Graph.{Node, Edge, Graph, has_shape, node_by_id, out_edges}
use dfgo.Model.Attrs.{Floats, int_attr, bool_attr, string_attr}
use dfgo.EdgeSelect.{select}
use dfgo.Runtime.Outcome.{StageStatus, Outcome, success, fail, retry, partial_success, is_success}
use dfgo.Runtime.Checkpoint.{VisitEntry}
use dfgo.Runtime.Retry.{policy_by_name}
use dfgo.Engine.State.{
  Event, stage_failed, stage_retrying, RunError, canceled, node_not_found, gate_failed,
  no_matching_edge, gate_unsatisfied, nil_node, World, Registry, State, Next, goto, stop, failed,
  emit, counter,
}
use dfgo.Engine.Gates.{check_goal_gates, resolve_retry_target}
use dfgo.Engine.Node.{
  save_checkpoint, complete, visit, count_retry, start_stage, is_fail, apply_outcome, execute_node,
  handle_parallel_complete, handle_manager_loop_complete,
}

abbrev pub is_retry : StageStatus → Bool
is_retry retry = true
is_retry _ = false

-- node.IntAttr("max_retries", g.IntAttr("default_max_retry", 50))
unfoldable pub retry_limit : Graph → Node → ℤ
retry_limit g n = int_attr n.attrs "max_retries" (int_attr g.attrs "default_max_retry" (pos 50))

abbrev pub no_edges : List Edge → Bool
no_edges [] = true
no_edges (e ∷ es) = false

-- What becomes of an outcome that asks for a retry when none is left.
unfoldable pub exhausted : Node → Outcome → Outcome
exhausted n o =
    if is_retry o.status
    then if bool_attr n.attrs "allow_partial" false
      then record o { status = partial_success; notes = "retries exhausted, partial accepted" }
      else record o { status = fail; failure_reason = "max retries exceeded" }
    else o

module _ {w : World} where
  unfoldable pub may_retry : Graph → Node → String → State w → Bool
  may_retry g n id s = lt_int (counter s id) (retry_limit g n)

  -- The checkpoint names the gate, also where the run goes on at its retry target.
  unfoldable pub exit_step : Graph → String → State w → Next × State w
  exit_step g id s =
      let gate = check_goal_gates g s.visit_log in
      if str_eq gate ""
      then (stop, visit id success 1 (complete id s))
      else elim (node_by_id g gate) as (λ _. Next × State w) [
        | none ↦ (failed nil_node, s)
        | some n ↦
            let next = elim (resolve_retry_target g gate) as (λ _. String) [
              | some target ↦ target
              | none ↦ gate
            ] in
            if may_retry g n gate s
            then (goto next, save_checkpoint gate (count_retry gate s))
            else (failed (gate_unsatisfied gate (retry_limit g n)), s)
      ]

  -- The wait before an attempt; a policy without a delay does not look at the context.
  unfoldable pub backoff : Node → String → State w → Next × State w
  backoff n id s =
      let policy = policy_by_name (string_attr n.attrs "retry_policy" "standard") in
      let waited = w.wait policy (counter s id) s.world in
      if policy.initial_delay_ms == 0
      then (goto id, s)
      else (if waited.0 then goto id else failed canceled, record s { world = waited.1 })

  abbrev pub announce : Graph → Node → String → State w → State w
  announce g n id s = emit (stage_retrying id (counter s id) (retry_limit g n)) s

  abbrev pub turn_ends :
      (String → State w → Option (Option RunError × State w))
      → Next × State w
      → Option (Option RunError × State w)
  turn_ends again (goto next, s) = again next s
  turn_ends again (stop, s) = some (none, s)
  turn_ends again (failed x, s) = some (some x, s)

  module _ (fl : Floats) where
    unfoldable pub follow_edge : Graph → String → Outcome → State w → Next × State w
    follow_edge g id o s = elim (select fl g id o s.pctx) [
      | some e ↦ (goto e.to, save_checkpoint e.to s)
      | none ↦
          if no_edges (out_edges g id)
          then (stop, s)
          else if is_success o
          then (failed (no_matching_edge id), s)
          else elim (resolve_retry_target g id) as (λ _. Next × State w) [
            | some target ↦ (goto target, s)
            | none ↦ (failed (no_matching_edge id), s)
          ]
    ]

    -- The children of a fan-out and of a manager loop have been executed by the handler.
    abbrev pub jump : Graph → Node → String → State w → Option String × State w
    jump g n id s =
        if str_eq (index n.attrs "type") "parallel"
        then handle_parallel_complete g id s
        else if str_eq (index n.attrs "type") "stack.manager_loop"
        then handle_manager_loop_complete g id s
        else (none, s)

    abbrev pub go_on : Graph → String → Outcome → Option String × State w → Next × State w
    go_on g id o (some next, s) = (goto next, save_checkpoint next s)
    go_on g id o (none, s) = follow_edge g id o s

    unfoldable pub leave : Graph → Node → String → Outcome → State w → Next × State w
    leave g n id o s = go_on g id o (jump g n id (complete id s))

    -- An outcome that is not retried: a failed goal gate is.
    unfoldable pub settle : Graph → Node → String → Outcome → State w → Next × State w
    settle g n id o s =
        if is_fail o.status && bool_attr n.attrs "goal_gate" false
        then if may_retry g n id s
          then backoff n id (save_checkpoint id (count_retry id s))
          else (failed (gate_failed id), s)
        else leave g n id o s

    unfoldable pub after : Graph → Node → String → Outcome → State w → Next × State w
    unfolding exhausted
    after g n id o s =
        if is_retry o.status && may_retry g n id s
        then backoff n id (save_checkpoint id (announce g n id (count_retry id s)))
        else settle g n id (exhausted n o) s

    module _ (preamble : String → String → String → List VisitEntry → String)
        (registry : Registry w) where
      unfoldable pub run_node : Graph → Node → String → State w → Next × State w
      run_node g n id s =
          let r = execute_node preamble registry g n (start_stage id s) in
          elim r.0 [
            | err x ↦ (failed x, emit (stage_failed id) r.1)
            | ok o ↦ after g n id o (apply_outcome id o r.1)
          ]

      abbrev pub at_node : Graph → String → State w → Next × State w
      at_node g id s = elim (node_by_id g id) [
        | none ↦ (failed (node_not_found id), s)
        | some n ↦ if has_shape "Msquare" n then exit_step g id s else run_node g n id s
      ]

      unfoldable pub step : Graph → String → State w → Next × State w
      step g id s =
          let done = w.is_done s.world in
          let t = record s { world = done.1 } in
          if done.0 then (failed canceled, t) else at_node g id t

      -- The loop; none when the fuel runs out: a pipeline may go round for ever.
      unfoldable pub steps : ℕ → Graph → String → State w → Option (Option RunError × State w)
      steps zero g id s = none
      steps (suc fuel) g id s = turn_ends (steps fuel g) (step g id s)
