-- ===== src/Engine/Lands.antt =====
-- internal/attractor/engine.go: how the turns of a run end on a graph whose edges lead to nodes.
use dfgo.Prelude.{
  ℕ, zero, suc, String, false, ◌&&◌, List, Option, some, none, str_eq, ◌≡◌, refl, Bool-cases, inl,
  inr, Option-cases,
}
use mathlib.Core.Path.{subst}
use dfgo.Prelude.Dict.{index}
use dfgo.Prelude.Result.{Result, ok, err, Result-cases}
use dfgo.Fidelity.Mode
use dfgo.Model.Graph.{Node, Edge, Graph, has_shape, node_by_id}
use dfgo.Model.Attrs.{Floats, bool_attr}
use dfgo.EdgeSelect.{select}
use dfgo.Runtime.Outcome.{Outcome}
use dfgo.Runtime.Checkpoint.{VisitEntry}
use dfgo.Engine.State.{RunError, execute_failed, World, Registry, State, Next, goto, stop, failed}
use dfgo.Engine.Node.{complete, start_stage, is_fail, execute_node, lookup_handler, with_preamble}
use dfgo.Engine.Step.{
  may_retry, follow_edge, jump, go_on, leave, settle, after, run_node, at_node, step, steps,
  is_retry, turn_ends,
}
use dfgo.Engine.Targets.{Present, IsSound, select-Inside}
use dfgo.Engine.Parts.{
  IsExpected, Lands, Jumps, no_edges-of_select, exit_step-Lands, backoff-Lands, parallel-Jumps,
  manager-Jumps,
}

module _ {w : World} (g : Graph) (s : IsSound g) where
  module _ (fl : Floats) where
    follow_edge-Lands :
        (id : String) (o : Outcome) (t : State w) → Lands g (follow_edge fl g id o t).0
    unfolding follow_edge
    follow_edge-Lands id o t = elim (Option-cases (select fl g id o t.pctx)) [
      | inr (e, p) ↦
          rw (p, follow_edge)
            (rw p at (select-Inside (λ (e : Edge). Present g e.to) fl g id o t.pctx s.leads))
      | inl p ↦ rw (p, no_edges-of_select fl g id o t.pctx p, follow_edge) tt
    ]

    jump-Jumps : (n : Node) (id : String) (t : State w) → Jumps g (jump fl g n id t).0
    jump-Jumps n id t = elim (Bool-cases (str_eq (index n.attrs "type") "parallel")) [
      | inl e ↦ rw (e, jump) (parallel-Jumps g s id t)
      | inr e ↦ elim (Bool-cases (str_eq (index n.attrs "type") "stack.manager_loop")) [
        | inl f ↦ rw (e, f, jump) (manager-Jumps g s id t)
        | inr f ↦ rw (e, f, jump) tt
      ]
    ]

    go_on-Lands :
        (id : String) (o : Outcome) (j : Option String × State w)
        → Jumps g j.0
        → Lands g (go_on fl g id o j).0
    go_on-Lands id o (some next, t) h = h
    go_on-Lands id o (none, t) h = follow_edge-Lands id o t

    settle-Lands :
        (n : Node) (id : String) (o : Outcome) (t : State w)
        → Present g id
        → Lands g (settle fl g n id o t).0
    unfolding settle leave
    settle-Lands n id o t h =
        elim (Bool-cases (is_fail o.status && bool_attr n.attrs "goal_gate" false)) [
          | inl a ↦ elim (Bool-cases (may_retry g n id t)) [
            | inl b ↦ rw (a, b, settle) (backoff-Lands g s n id _ h)
            | inr b ↦ rw (a, b, settle) (IsExpected.gate_fails id)
          ]
          | inr a ↦
              rw (a, settle)
                (go_on-Lands id o (jump fl g n id (complete id t))
                  (jump-Jumps n id (complete id t)))
        ]

    after-Lands :
        (n : Node) (id : String) (o : Outcome) (t : State w)
        → Present g id
        → Lands g (after fl g n id o t).0
    unfolding after
    after-Lands n id o t h = elim (Bool-cases (is_retry o.status && may_retry g n id t)) [
      | inl a ↦ rw (a, after) (backoff-Lands g s n id _ h)
      | inr a ↦ rw (a, after) (settle-Lands n id _ t h)
    ]

    module _ (preamble : String → String → String → List VisitEntry → String)
        (registry : Registry w) where
      execute_node-IsExpected :
          (n : Node) (t : State w) (x : RunError)
          → (execute_node preamble registry g n t).0 ≡ err x
          → IsExpected x
      unfolding execute_node
      execute_node-IsExpected n t x e = elim (Option-cases (lookup_handler registry n)) [
        | inl p ↦
            subst IsExpected (same_err (rw (p, execute_node) at e)) (IsExpected.unregistered n.id)
        | inr (f, p) ↦ of_handler (f mode n u.pctx g u.world).result (rw (p, execute_node) at e)
      ]
        where
          mode : String
          mode = Mode.resolve none (some n) (some g)

          u : State w
          u = with_preamble preamble mode t

          failing : RunError → Result RunError Outcome
          failing a = err a

          same_err : {a : RunError} → failing a ≡ failing x → a ≡ x
          same_err q = cc

          of_handler :
              (r : Result String Outcome)
              → elim r as (λ _. Result RunError Outcome) [
                | err y ↦ err (execute_failed n.id y)
                | ok o ↦ ok o
              ]
                ≡ err x
              → IsExpected x
          of_handler (ok o) q = cc
          of_handler (err y) q = subst IsExpected (same_err q) (IsExpected.handler_fails n.id y)

      run_node-Lands :
          (n : Node) (id : String) (t : State w)
          → Present g id
          → Lands g (run_node fl preamble registry g n id t).0
      unfolding run_node
      run_node-Lands n id t h =
          elim (Result-cases (execute_node preamble registry g n (start_stage id t)).0) [
            | inr (x, e) ↦ rw (e, run_node) (execute_node-IsExpected n _ x e)
            | inl (o, e) ↦ rw (e, run_node) (after-Lands n id o _ h)
          ]

      -- A turn at a node of the graph goes on at one, stops, or fails in an expected way.
      pub step-Lands :
          (id : String) (t : State w) → Present g id → Lands g (step fl preamble registry g id t).0
      unfolding step
      step-Lands id t h = elim (Bool-cases (w.is_done t.world).0) [
        | inl a ↦ rw (a, step) IsExpected.context_ends
        | inr a ↦ elim (Option-cases (node_by_id g id)) [
          | inl p ↦ absurd (h p)
          | inr (n, p) ↦ elim (Bool-cases (has_shape "Msquare" n)) [
            | inl b ↦ rw (a, p, b, step, at_node) (exit_step-Lands g s id _)
            | inr b ↦ rw (a, p, b, step, at_node) (run_node-Lands n id _ h)
          ]
        ]
      ]

      turn_ends-Lands :
          (again : String → State w → Option (Option RunError × State w)) {x : RunError}
          {t : State w}
          → ((next : String) (u : State w)
              → Present g next
              → again next u ≡ some (some x, t)
              → IsExpected x)
          → (r : Next × State w) → Lands g r.0
          → turn_ends again r ≡ some (some x, t)
          → IsExpected x
      turn_ends-Lands again k (goto next, u) h e = k next u h e
      turn_ends-Lands again k (stop, u) h e = cc
      turn_ends-Lands again {x} {t} k (failed y, u) h e =
          subst IsExpected (same_error (some y, u) (some x, t) y x refl refl e) h
        where
          same_error :
              (p q : Option RunError × State w) (a b : RunError)
              → p.0 ≡ some a
              → q.0 ≡ some b
              → some p ≡ some q
              → a ≡ b
          same_error p q a b c d f = cc

      -- On a graph with its index in step whose edges lead to nodes, a run that starts at a node
      -- fails only because the context ended, a node has no handler, a handler returned an error,
      -- or a goal gate is unsatisfied with no retry left: it never looks for a node that is not
      -- there, and it never has an edge to follow that the selector does not find.
      pub steps-IsExpected :
          (fuel : ℕ) (id : String) (u : State w) (x : RunError) (t : State w)
          → Present g id
          → steps fl preamble registry fuel g id u ≡ some (some x, t)
          → IsExpected x
      unfolding steps
      steps-IsExpected zero id u x t h e = cc
      steps-IsExpected (suc fuel) id u x t h e =
          turn_ends-Lands (steps fl preamble registry fuel g)
            (λ next v. steps-IsExpected fuel next v x t) (step fl preamble registry g id u)
            (step-Lands id u h) e
