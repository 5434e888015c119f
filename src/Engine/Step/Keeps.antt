-- ===== src/Engine/Step/Keeps.antt =====
-- internal/attractor/engine.go: what a turn of the loop keeps, and so the loop.
use dfgo.Prelude.{
  ℕ, zero, suc, String, false, ◌&&◌, List, Option, some, none, str_eq, ◌≡◌, Bool-cases, inl, inr,
  Option-cases, ◌==◌,
}
use dfgo.Prelude.Dict.{index}
use dfgo.Prelude.Result.{Result-cases}
use dfgo.Model.Graph.{Node, Graph, has_shape, node_by_id, successors, out_edges}
use dfgo.Model.Attrs.{Floats, bool_attr, string_attr}
use dfgo.Runtime.Retry.{policy_by_name}
use dfgo.EdgeSelect.{select}
use dfgo.Runtime.Outcome.{Outcome, success, is_success}
use dfgo.Runtime.Checkpoint.{VisitEntry}
use dfgo.Runtime.Context.{lookup}
use dfgo.Engine.State.{RunError, World, Registry, State}
use dfgo.Engine.Gates.{check_goal_gates, resolve_retry_target}
use dfgo.Engine.Node.{
  complete, start_stage, is_fail, execute_node, handle_parallel_complete,
  handle_manager_loop_complete,
}
use dfgo.Engine.Step.{
  may_retry, exit_step, backoff, follow_edge, no_edges, jump, go_on, leave, settle, after, run_node,
  at_node, step, steps, is_retry,
}
use dfgo.Engine.Step.Changes.{
  Kept, Holds, IsKept, visit-Holds, complete-Holds, complete_all-Holds, count_retry-Holds,
  apply_outcome-Holds, apply_children-Holds, save_checkpoint-Holds, emit-Holds, execute_node-Holds,
  turn_ends-Holds,
}

module _ {w : World} {g : Graph} {P : Kept} (k : IsKept g P) where
  exit_step-Holds : (id : String) (s : State w) → Holds P s → Holds P (exit_step g id s).1
  unfolding exit_step
  exit_step-Holds id s h = elim (Bool-cases (str_eq (check_goal_gates g s.visit_log) "")) [
    | inl e ↦ rw (e, exit_step) (visit-Holds k id success 1 _ (complete-Holds k id s h))
    | inr e ↦ elim (Option-cases (node_by_id g (check_goal_gates g s.visit_log))) [
      | inl p ↦ rw (e, p, exit_step) h
      | inr (n, p) ↦ elim (Bool-cases (may_retry g n (check_goal_gates g s.visit_log) s)) [
        | inl b ↦
            rw (e, p, b, exit_step) (save_checkpoint-Holds P _ _ (count_retry-Holds k _ n s p b h))
        | inr b ↦ rw (e, p, b, exit_step) h
      ]
    ]
  ]

  pub backoff-Holds :
      (n : Node) (id : String) (s : State w) → Holds P s → Holds P (backoff n id s).1
  unfolding backoff
  backoff-Holds n id s h =
      elim (Bool-cases
        ((policy_by_name (string_attr n.attrs "retry_policy" "standard")).initial_delay_ms == 0)) [
          | inl e ↦ rw (e, backoff) h
          | inr e ↦ rw (e, backoff) (record { held = h.held })
        ]

  parallel-Holds :
      (id : String) (s : State w) → Holds P s → Holds P (handle_parallel_complete g id s).1
  unfolding handle_parallel_complete
  parallel-Holds id s h = elim (Option-cases (lookup s.pctx "parallel.results")) [
    | inl e ↦ rw (e, handle_parallel_complete) h
    | inr (text, e) ↦ elim (Option-cases (w.unmarshal_outcomes text)) [
      | inl p ↦ rw (e, p, handle_parallel_complete) h
      | inr (os, p) ↦ rw (e, p, handle_parallel_complete) (apply_children-Holds k os s h)
    ]
  ]

  manager-Holds :
      (id : String) (s : State w) → Holds P s → Holds P (handle_manager_loop_complete g id s).1
  unfolding handle_manager_loop_complete
  manager-Holds id s h = complete_all-Holds k (successors g id) s h

  module _ (fl : Floats) where
    follow_edge-Holds :
        (id : String) (o : Outcome) (s : State w) → Holds P s → Holds P (follow_edge fl g id o s).1
    unfolding follow_edge
    follow_edge-Holds id o s h = elim (Option-cases (select fl g id o s.pctx)) [
      | inr (e, p) ↦ rw (p, follow_edge) (save_checkpoint-Holds P e.to s h)
      | inl p ↦ elim (Bool-cases (no_edges (out_edges g id))) [
        | inl a ↦ rw (p, a, follow_edge) h
        | inr a ↦ elim (Bool-cases (is_success o)) [
          | inl b ↦ rw (p, a, b, follow_edge) h
          | inr b ↦ elim (Option-cases (resolve_retry_target g id)) [
            | inl q ↦ rw (p, a, b, q, follow_edge) h
            | inr (t, q) ↦ rw (p, a, b, q, follow_edge) h
          ]
        ]
      ]
    ]

    jump-Holds : (n : Node) (id : String) (s : State w) → Holds P s → Holds P (jump fl g n id s).1
    jump-Holds n id s h = elim (Bool-cases (str_eq (index n.attrs "type") "parallel")) [
      | inl e ↦ rw (e, jump) (parallel-Holds id s h)
      | inr e ↦ elim (Bool-cases (str_eq (index n.attrs "type") "stack.manager_loop")) [
        | inl f ↦ rw (e, f, jump) (manager-Holds id s h)
        | inr f ↦ rw (e, f, jump) h
      ]
    ]

    go_on-Holds :
        (id : String) (o : Outcome) (j : Option String × State w)
        → Holds P j.1
        → Holds P (go_on fl g id o j).1
    go_on-Holds id o (some next, s) h = save_checkpoint-Holds P next s h
    go_on-Holds id o (none, s) h = follow_edge-Holds id o s h

    leave-Holds :
        (n : Node) (id : String) (o : Outcome) (s : State w)
        → Holds P s
        → Holds P (leave fl g n id o s).1
    unfolding leave
    leave-Holds n id o s h =
        go_on-Holds id o (jump fl g n id (complete id s))
          (jump-Holds n id _ (complete-Holds k id s h))

    settle-Holds :
        (n : Node) (id : String) (o : Outcome) (s : State w)
        → node_by_id g id ≡ some n
        → Holds P s
        → Holds P (settle fl g n id o s).1
    unfolding settle
    settle-Holds n id o s there h =
        elim (Bool-cases (is_fail o.status && bool_attr n.attrs "goal_gate" false)) [
          | inl a ↦ elim (Bool-cases (may_retry g n id s)) [
            | inl b ↦
                rw (a, b, settle)
                  (backoff-Holds n id _
                    (save_checkpoint-Holds P id _ (count_retry-Holds k id n s there b h)))
            | inr b ↦ rw (a, b, settle) h
          ]
          | inr a ↦ rw (a, settle) (leave-Holds n id o s h)
        ]

    after-Holds :
        (n : Node) (id : String) (o : Outcome) (s : State w)
        → node_by_id g id ≡ some n
        → Holds P s
        → Holds P (after fl g n id o s).1
    unfolding after
    after-Holds n id o s there h = elim (Bool-cases (is_retry o.status)) [
      | inl a ↦ elim (Bool-cases (may_retry g n id s)) [
        | inl b ↦
            rw (a, b, after)
              (backoff-Holds n id _ (
                save_checkpoint-Holds P id _
                  (emit-Holds P _ _ (count_retry-Holds k id n s there b h))))
        | inr b ↦ rw (a, b, after) (settle-Holds n id _ s there h)
      ]
      | inr a ↦ rw (a, after) (settle-Holds n id _ s there h)
    ]

    module _ (preamble : String → String → String → List VisitEntry → String)
        (registry : Registry w) where
      run_node-Holds :
          (n : Node) (id : String) (s : State w)
          → node_by_id g id ≡ some n
          → Holds P s
          → Holds P (run_node fl preamble registry g n id s).1
      unfolding run_node start_stage
      run_node-Holds n id s there h =
          let held =
            execute_node-Holds P preamble registry g n (start_stage id s)
              (record { held = h.held }) in
          elim (Result-cases (execute_node preamble registry g n (start_stage id s)).0) [
            | inr (x, e) ↦ rw (e, run_node) (emit-Holds P _ _ held)
            | inl (o, e) ↦
                rw (e, run_node) (after-Holds n id o _ there (apply_outcome-Holds k id o _ held))
          ]

      -- One turn of the loop keeps what its changes keep, whatever node it is at and however it ends.
      pub step-Holds :
          (id : String) (s : State w) → Holds P s → Holds P (step fl preamble registry g id s).1
      unfolding step
      step-Holds id s h = elim (Bool-cases (w.is_done s.world).0) [
        | inl a ↦ rw (a, step) (record { held = h.held })
        | inr a ↦ elim (Option-cases (node_by_id g id)) [
          | inl p ↦ rw (a, p, step, at_node) (record { held = h.held })
          | inr (n, p) ↦ elim (Bool-cases (has_shape "Msquare" n)) [
            | inl b ↦ rw (a, p, b, step, at_node) (exit_step-Holds id _ (record { held = h.held }))
            | inr b ↦
                rw (a, p, b, step, at_node) (run_node-Holds n id _ p (record { held = h.held }))
          ]
        ]
      ]

      pub steps-Holds :
          (fuel : ℕ) (id : String) (s : State w) (x : Option RunError) (t : State w)
          → steps fl preamble registry fuel g id s ≡ some (x, t)
          → Holds P s
          → Holds P t
      unfolding steps
      steps-Holds zero id s x t e h = cc
      steps-Holds (suc fuel) id s x t e h =
          turn_ends-Holds P (steps fl preamble registry fuel g)
            (λ next u. steps-Holds fuel next u x t) (step fl preamble registry g id s) e
            (step-Holds id s h)
