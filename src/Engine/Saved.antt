-- ===== src/Engine/Saved.antt =====
-- internal/attractor/engine.go: what checkpoint.json holds while a run goes on.
use dfgo.Prelude.{
  map, String, true, false, ◌&&◌, List, Option, some, none, ◌≡◌, refl, Bool-cases, inl, inr,
  Option-cases, ◌==◌,
}
use dfgo.Prelude.Result.{Result-cases}
use dfgo.Model.Graph.{Node, Graph, has_shape, node_by_id}
use dfgo.Model.Attrs.{Floats, bool_attr, string_attr}
use dfgo.EdgeSelect.{select}
use dfgo.Runtime.Outcome.{Outcome}
use dfgo.Runtime.Context.{snapshot}
use dfgo.Runtime.Checkpoint.{VisitEntry, Checkpoint}
use dfgo.Runtime.Retry.{policy_by_name}
use dfgo.Engine.State.{World, Registry, State, Next, goto, stop, failed, counter}
use dfgo.Engine.Node.{checkpoint, save_checkpoint, complete, start_stage, is_fail, execute_node}
use dfgo.Engine.Step.{
  may_retry, backoff, follow_edge, jump, go_on, leave, settle, after, run_node, at_node, step,
  is_retry,
}
use dfgo.Engine.Parts.{no_edges-of_select}

-- The file names the node to go on at, and has the counters, the completed nodes, the visit log
-- and the context of the state.
pub record IsSaved {w : World} (next : String) (t : State w) : Type 0 where
  pub cp : Checkpoint
  pub on_disk : t.saved ≡ some cp
  pub names : cp.current_node ≡ next
  pub same_counters : cp.retry_counters ≡ t.retry_counters
  pub same_completed : cp.completed ≡ map (λ (id, b). id) t.completed
  pub same_log : cp.visit_log ≡ t.visit_log
  pub same_context : cp.context ≡ t.pctx.entries

abbrev pub IsSavedOn : {w : World} → Next × State w → Type 0
IsSavedOn (goto next, t) = IsSaved next t
IsSavedOn (stop, t) = Unit
IsSavedOn (failed x, t) = Unit

-- Every write of the file succeeds.
abbrev pub Writes : World → Type 0
Writes w = (cp : Checkpoint) (v : w.W) → (w.write_checkpoint cp v).0 ≡ true

module _ {w : World} (writes : Writes w) where
  save_checkpoint-IsSaved : (id : String) (s : State w) → IsSaved id (save_checkpoint id s)
  unfolding save_checkpoint checkpoint snapshot
  save_checkpoint-IsSaved id s =
      rw (writes (checkpoint id s) s.world, save_checkpoint)
        (record {
          cp = checkpoint id s;
          on_disk = refl;
          names = refl;
          same_counters = refl;
          same_completed = refl;
          same_log = refl;
          same_context = refl;
        })

  backoff-IsSavedOn :
      (n : Node) (id : String) (t : State w) → IsSaved id t → IsSavedOn (backoff n id t)
  unfolding backoff
  backoff-IsSavedOn n id t h =
      elim (Bool-cases
        ((policy_by_name (string_attr n.attrs "retry_policy" "standard")).initial_delay_ms == 0)) [
          | inl e ↦ rw (e, backoff) h
          | inr e ↦
              elim (Bool-cases
                (w.wait (policy_by_name (string_attr n.attrs "retry_policy" "standard"))
                  (counter t id) t.world).0) [
                    | inl f ↦
                        rw (e, f, backoff)
                          (record {
                            cp = h.cp;
                            on_disk = h.on_disk;
                            names = h.names;
                            same_counters = h.same_counters;
                            same_completed = h.same_completed;
                            same_log = h.same_log;
                            same_context = h.same_context;
                          })
                    | inr f ↦ rw (e, f, backoff) tt
                  ]
        ]

  module _ (fl : Floats) (g : Graph) (n : Node) (id : String) where
    follow_edge-IsSavedOn : (o : Outcome) (t : State w) → IsSavedOn (follow_edge fl g id o t)
    unfolding follow_edge
    follow_edge-IsSavedOn o t = elim (Option-cases (select fl g id o t.pctx)) [
      | inr (e, p) ↦ rw (p, follow_edge) (save_checkpoint-IsSaved e.to t)
      | inl p ↦ rw (p, no_edges-of_select fl g id o t.pctx p, follow_edge) tt
    ]

    go_on-IsSavedOn : (o : Outcome) (j : Option String × State w) → IsSavedOn (go_on fl g id o j)
    go_on-IsSavedOn o (some next, t) = save_checkpoint-IsSaved next t
    go_on-IsSavedOn o (none, t) = follow_edge-IsSavedOn o t

    settle-IsSavedOn : (o : Outcome) (t : State w) → IsSavedOn (settle fl g n id o t)
    unfolding settle leave
    settle-IsSavedOn o t =
        elim (Bool-cases (is_fail o.status && bool_attr n.attrs "goal_gate" false)) [
          | inl a ↦ elim (Bool-cases (may_retry g n id t)) [
            | inl b ↦ rw (a, b, settle) (backoff-IsSavedOn n id _ (save_checkpoint-IsSaved id _))
            | inr b ↦ rw (a, b, settle) tt
          ]
          | inr a ↦ rw (a, settle) (go_on-IsSavedOn o (jump fl g n id (complete id t)))
        ]

    after-IsSavedOn : (o : Outcome) (t : State w) → IsSavedOn (after fl g n id o t)
    unfolding after
    after-IsSavedOn o t = elim (Bool-cases (is_retry o.status && may_retry g n id t)) [
      | inl a ↦ rw (a, after) (backoff-IsSavedOn n id _ (save_checkpoint-IsSaved id _))
      | inr a ↦ rw (a, after) (settle-IsSavedOn _ t)
    ]

    module _ (preamble : String → String → String → List VisitEntry → String)
        (registry : Registry w) where
      run_node-IsSavedOn : (t : State w) → IsSavedOn (run_node fl preamble registry g n id t)
      unfolding run_node
      run_node-IsSavedOn t =
          elim (Result-cases (execute_node preamble registry g n (start_stage id t)).0) [
            | inr (x, e) ↦ rw (e, run_node) tt
            | inl (o, e) ↦ rw (e, run_node) (after-IsSavedOn o _)
          ]

      -- Where every write of the checkpoint succeeds, a turn at a node that is no exit leaves a
      -- checkpoint behind with which the run can go on: it names the node that the turn moves to,
      -- on a retry the node itself, and has the state's counters, completed nodes, visit
      -- log and context.
      pub step-IsSavedOn :
          (t : State w)
          → node_by_id g id ≡ some n
          → has_shape "Msquare" n ≡ false
          → IsSavedOn (step fl preamble registry g id t)
      unfolding step
      step-IsSavedOn t p b = elim (Bool-cases (w.is_done t.world).0) [
        | inl a ↦ rw (a, step) tt
        | inr a ↦ rw (a, p, b, step, at_node) (run_node-IsSavedOn _)
      ]
