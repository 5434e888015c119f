-- ===== src/Engine/Parts.antt =====
-- internal/attractor/engine.go: where the exit, a retry, a fan-out and a manager loop go on.
use dfgo.Prelude.{
  String, true, false, Option, none, str_eq, eq_iff, ◌≡◌, ◌≢◌, ◌⊎◌, refl, Bool-cases, inl, inr,
  Option-cases, ◌==◌,
}
use dfgo.Prelude.Text.{ℤ}
use dfgo.Model.Graph.{Node, Graph, node_by_id, out_edges, successors}
use dfgo.Model.Attrs.{Floats, string_attr}
use dfgo.EdgeSelect.{select}
use dfgo.EdgeSelect.Chosen.{select-none_iff}
use dfgo.Runtime.Outcome.{Outcome}
use dfgo.Runtime.Context.{Context, lookup}
use dfgo.Runtime.Retry.{policy_by_name}
use dfgo.Engine.State.{
  RunError, canceled, no_handler, gate_failed, gate_unsatisfied, execute_failed, World, State, Next,
  goto, stop, failed, counter,
}
use dfgo.Engine.Gates.{check_goal_gates, resolve_retry_target}
use dfgo.Engine.Node.{handle_parallel_complete, handle_manager_loop_complete}
use dfgo.Engine.Step.{may_retry, exit_step, backoff, no_edges}
use dfgo.Engine.Targets.{
  Present, IsSound, Inside, check_goal_gates-Present, resolve_retry_target-Present,
  find_convergence-Present, continuation-Present,
}

-- An error that a run may report on a sound graph: the context ended, no handler or the handler's
-- own, a goal gate. A node that is missing and an edge that is are not.
pub data IsExpected : RunError → Type 0 where
  context_ends : IsExpected canceled
  unregistered : (id : String) → IsExpected (no_handler id)
  handler_fails : (id x : String) → IsExpected (execute_failed id x)
  gate_fails : (id : String) → IsExpected (gate_failed id)
  exit_refused : (id : String) (k : ℤ) → IsExpected (gate_unsatisfied id k)

abbrev pub Lands : Graph → Next → Type 0
Lands g (goto id) = Present g id
Lands g stop = Unit
Lands g (failed x) = IsExpected x

abbrev pub Jumps : Graph → Option String → Type 0
Jumps g j = Inside (Present g) j

-- Where the selector finds no edge, there is none.
pub no_edges-of_select :
    (fl : Floats) (g : Graph) (id : String) (o : Outcome) (c : Context)
    → select fl g id o c ≡ none
    → no_edges (out_edges g id) ≡ true
no_edges-of_select fl g id o c p = rw ((select-none_iff fl g id o c).0 p) refl

module _ {w : World} (g : Graph) (s : IsSound g) where
  pub exit_step-Lands : (id : String) (t : State w) → Lands g (exit_step g id t).0
  unfolding exit_step
  exit_step-Lands id t = elim (Bool-cases (str_eq (check_goal_gates g t.visit_log) "")) [
    | inl e ↦ rw (e, exit_step) tt
    | inr e ↦ elim (Option-cases (node_by_id g (check_goal_gates g t.visit_log))) [
      | inl p ↦ absurd (here (check_goal_gates-Present g t.visit_log s) e p)
      | inr (n, p) ↦ elim (Bool-cases (may_retry g n (check_goal_gates g t.visit_log) t)) [
        | inr b ↦ rw (e, p, b, exit_step) (IsExpected.exit_refused _ _)
        | inl b ↦ elim (Option-cases (resolve_retry_target g (check_goal_gates g t.visit_log))) [
          | inl q ↦ rw (e, p, b, q, exit_step) (λ r. cc)
          | inr (c, q) ↦
              rw (e, p, b, q, exit_step)
                (rw q at (resolve_retry_target-Present g (check_goal_gates g t.visit_log)))
        ]
      ]
    ]
  ]
    where
      here :
          (check_goal_gates g t.visit_log ≡ "") ⊎ Present g (check_goal_gates g t.visit_log)
          → str_eq (check_goal_gates g t.visit_log) "" ≡ false
          → node_by_id g (check_goal_gates g t.visit_log) ≢ none
      here (inl a) b = λ _. cc (b, (eq_iff (check_goal_gates g t.visit_log) "").1 a)
      here (inr a) b = a

  pub backoff-Lands :
      (n : Node) (id : String) (t : State w) → Present g id → Lands g (backoff n id t).0
  unfolding backoff
  backoff-Lands n id t h =
      elim (Bool-cases
        ((policy_by_name (string_attr n.attrs "retry_policy" "standard")).initial_delay_ms == 0)) [
          | inl e ↦ rw (e, backoff) h
          | inr e ↦
              elim (Bool-cases
                (w.wait (policy_by_name (string_attr n.attrs "retry_policy" "standard"))
                  (counter t id) t.world).0) [
                    | inl f ↦ rw (e, f, backoff) h
                    | inr f ↦ rw (e, f, backoff) IsExpected.context_ends
                  ]
        ]

  pub parallel-Jumps : (id : String) (t : State w) → Jumps g (handle_parallel_complete g id t).0
  unfolding handle_parallel_complete
  parallel-Jumps id t = elim (Option-cases (lookup t.pctx "parallel.results")) [
    | inl e ↦ rw (e, handle_parallel_complete) tt
    | inr (text, e) ↦ elim (Option-cases (w.unmarshal_outcomes text)) [
      | inl p ↦ rw (e, p, handle_parallel_complete) tt
      | inr (os, p) ↦
          rw (e, p, handle_parallel_complete) (find_convergence-Present g (successors g id) s)
    ]
  ]

  pub manager-Jumps : (id : String) (t : State w) → Jumps g (handle_manager_loop_complete g id t).0
  unfolding handle_manager_loop_complete
  manager-Jumps id t = continuation-Present g (successors g id) s
