-- ===== src/Engine/Bound/Counted.antt =====
-- internal/attractor/engine.go: a turn that goes back for a retry of a node has counted it.
use dfgo.Prelude.{
  ℕ, suc, ◌≤◌, String, true, false, ◌&&◌, str_eq, eq_iff, List, some, ◌≡◌, ◌≢◌, refl, ◌∙◌, inl, inr,
  Bool-cases, Option-cases, All, arith,
}
use dfgo.Prelude.Dict.{index}
use dfgo.Prelude.Result.{Result-cases}
use dfgo.Model.Graph.{Node, Edge, Graph, node_by_id, out_edges}
use dfgo.Model.Attrs.{Floats, bool_attr}
use dfgo.EdgeSelect.{select}
use dfgo.EdgeSelect.Chosen.{select-none_iff}
use dfgo.Runtime.Outcome.{Outcome}
use dfgo.Runtime.Checkpoint.{VisitEntry}
use dfgo.Engine.State.{World, Registry, State, Next, goto, counter, count_of}
use dfgo.Engine.Gates.{check_goal_gates}
use dfgo.Engine.Node.{complete, count_retry, start_stage, is_fail, execute_node}
use dfgo.Engine.Step.{
  may_retry, exit_step, follow_edge, jump, leave, settle, after, run_node, is_retry,
}
use dfgo.Engine.Step.Changes.{
  Kept, IsKept, Holds, save_checkpoint-Holds, emit-Holds, execute_node-Holds, apply_outcome-Holds,
}
use dfgo.Engine.Step.Keeps.{backoff-Holds}
use dfgo.Engine.Targets.{select_from-Inside}
use dfgo.Engine.Bound.{count_of-put}

abbrev pub AtLeast : String → ℕ → Kept
AtLeast id k c d log = k ≤ count_of c id

pub AtLeast-IsKept : (g : Graph) (id : String) (k : ℕ) → IsKept g (AtLeast id k)
AtLeast-IsKept g id k = record {
  visits = λ c d log v h. h;
  completes = λ c d log j h. h;
  counts = λ c d log j n there left h. elim (Bool-cases (str_eq j id)) [
    | inl e ↦
        let same : j ≡ id = (eq_iff j id).0 e in
        rw (count_of-put c j id (suc (count_of c j)), e, same) (omega (arith, h))
    | inr e ↦ rw (count_of-put c j id (suc (count_of c j)), e) h
  ];
}

module _ {w : World} (g : Graph) (id : String) (k : ℕ) where
  count_retry-AtLeast :
      (j : String) (s : State w)
      → j ≡ id
      → Holds (AtLeast id k) s
      → Holds (AtLeast id (suc k)) (count_retry j s)
  unfolding count_retry counter
  count_retry-AtLeast j s same h = record {
    held =
        let e : str_eq j id ≡ true = (eq_iff j id).1 same in
        rw (count_of-put s.retry_counters j id (suc (count_of s.retry_counters j)), e, same)
          (let b = h.held in omega (arith, b));
  }

  -- Where a turn goes back to the node, it has counted.
  abbrev pub Counted : Next × State w → Type 0
  Counted r = (next : String) → r.0 ≡ goto next → next ≡ id → Holds (AtLeast id (suc k)) r.1

  module _ (fl : Floats) (n : Node) (no_loop : All (λ (e : Edge). e.to ≢ id) (out_edges g id))
      (not_parallel : index n.attrs "type" ≢ "parallel")
      (not_manager : index n.attrs "type" ≢ "stack.manager_loop") where
    selected_elsewhere :
        (o : Outcome) (s : State w) (e : Edge) → select fl g id o s.pctx ≡ some e → e.to ≢ id
    unfolding select
    selected_elsewhere o s e p =
        rw p at (select_from-Inside (λ (x : Edge). x.to ≢ id) fl o s.pctx (out_edges g id) no_loop)

    follow_edge-Counted : (o : Outcome) (s : State w) → Counted (follow_edge fl g id o s)
    unfolding follow_edge
    follow_edge-Counted o s = elim (Option-cases (select fl g id o s.pctx)) [
      | inr (e, p) ↦
          rw (p, follow_edge)
            (λ next same back.
              let there : e.to ≡ next = cc in absurd (selected_elsewhere o s e p (there ∙ back)))
      | inl p ↦
          let none_there = (select-none_iff fl g id o s.pctx).0 p in
          rw (p, none_there, follow_edge) (λ next same back. cc)
    ]

    leave-Counted : (o : Outcome) (s : State w) → Counted (leave fl g n id o s)
    unfolding leave
    leave-Counted o s = elim (Bool-cases (str_eq (index n.attrs "type") "parallel")) [
      | inl e ↦ absurd (not_parallel ((eq_iff (index n.attrs "type") "parallel").0 e))
      | inr e ↦ elim (Bool-cases (str_eq (index n.attrs "type") "stack.manager_loop")) [
        | inl f ↦ absurd (not_manager ((eq_iff (index n.attrs "type") "stack.manager_loop").0 f))
        | inr f ↦ rw (leave, jump, e, f) (follow_edge-Counted o (complete id s))
      ]
    ]

    settle-Counted :
        (o : Outcome) (s : State w) → Holds (AtLeast id k) s → Counted (settle fl g n id o s)
    unfolding settle
    settle-Counted o s h =
        elim (Bool-cases (is_fail o.status && bool_attr n.attrs "goal_gate" false)) [
          | inl a ↦ elim (Bool-cases (may_retry g n id s)) [
            | inl b ↦
                rw (a, b, settle)
                  (λ next same back. backoff-Holds (AtLeast-IsKept g id (suc k)) n id _ (
                    save_checkpoint-Holds (AtLeast id (suc k)) id _
                      (count_retry-AtLeast id s refl h)))
            | inr b ↦ rw (a, b, settle) (λ next same back. cc)
          ]
          | inr a ↦ rw (a, settle) (leave-Counted o s)
        ]

    after-Counted :
        (o : Outcome) (s : State w) → Holds (AtLeast id k) s → Counted (after fl g n id o s)
    unfolding after
    after-Counted o s h = elim (Bool-cases (is_retry o.status)) [
      | inl a ↦ elim (Bool-cases (may_retry g n id s)) [
        | inl b ↦
            rw (a, b, after)
              (λ next same back. backoff-Holds (AtLeast-IsKept g id (suc k)) n id _ (
                save_checkpoint-Holds (AtLeast id (suc k)) id _
                  (emit-Holds (AtLeast id (suc k)) _ _ (count_retry-AtLeast id s refl h))))
        | inr b ↦ rw (a, b, after) (settle-Counted _ s h)
      ]
      | inr a ↦ rw (a, after) (settle-Counted _ s h)
    ]

    module _ (preamble : String → String → String → List VisitEntry → String)
        (registry : Registry w) where
      pub run_node-Counted :
          (s : State w) → Holds (AtLeast id k) s → Counted (run_node fl preamble registry g n id s)
      unfolding run_node start_stage
      run_node-Counted s h =
          let held =
            execute_node-Holds (AtLeast id k) preamble registry g n (start_stage id s)
              (record { held = h.held }) in
          elim (Result-cases (execute_node preamble registry g n (start_stage id s)).0) [
            | inr (x, e) ↦ rw (e, run_node) (λ next same back. cc)
            | inl (o, e) ↦
                rw (e, run_node)
                  (after-Counted o _ (apply_outcome-Holds (AtLeast-IsKept g id k) id o _ held))
          ]

  -- an exit that refuses for the node's sake
  pub exit_step-Counted :
      (at next : String) (s : State w)
      → Holds (AtLeast id k) s
      → check_goal_gates g s.visit_log ≡ id
      → (exit_step g at s).0 ≡ goto next
      → Holds (AtLeast id (suc k)) (exit_step g at s).1
  unfolding exit_step
  exit_step-Counted at next s h gate =
      elim (Bool-cases (str_eq (check_goal_gates g s.visit_log) "")) [
        | inl e ↦ rw (e, exit_step) (λ same. cc)
        | inr e ↦ elim (Option-cases (node_by_id g (check_goal_gates g s.visit_log))) [
          | inl p ↦ rw (e, p, exit_step) (λ same. cc)
          | inr (n, p) ↦ elim (Bool-cases (may_retry g n (check_goal_gates g s.visit_log) s)) [
            | inl b ↦
                rw (e, p, b, exit_step)
                  (λ same.
                    save_checkpoint-Holds (AtLeast id (suc k)) _ _
                      (count_retry-AtLeast (check_goal_gates g s.visit_log) s gate h))
            | inr b ↦ rw (e, p, b, exit_step) (λ same. cc)
          ]
        ]
      ]
