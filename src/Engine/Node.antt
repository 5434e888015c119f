-- ===== src/Engine/Node.antt =====
-- internal/attractor/engine.go and handler/handler.go: a node is executed and its outcome applied.
use dfgo.Prelude.{
  ℕ, ◌+◌, suc, String, Bool, true, false, if◌then◌else◌, List, [], ◌∷◌, ◌++◌, Option, some, none,
  str_eq, map,
}
use dfgo.Prelude.Dict.{Dict, get, put, index}
use dfgo.Prelude.Result.{Result, ok, err}
use dfgo.Prelude.Text.{append, itoa}
use dfgo.Model.Graph.{Node, Graph, node_by_id, successors}
use dfgo.Fidelity.Mode
use dfgo.Runtime.Outcome.{StageStatus, Outcome, fail, is_success, status_text}
use dfgo.Runtime.Context.{lookup, store, merge_all, snapshot}
use dfgo.Runtime.Checkpoint.{VisitEntry, Checkpoint}
use dfgo.Engine.State.{
  stage_failed, stage_completed, stage_started, checkpoint_saved, RunError, no_handler,
  execute_failed, World, Handler, Registry, State, emit, counter,
}
use dfgo.Engine.Gates.{find_convergence, continuation}

abbrev pub text_or : Option String → String
text_or none = ""
text_or (some v) = v

abbrev pub is_fail : StageStatus → Bool
is_fail fail = true
is_fail _ = false

module _ {w : World} where
  abbrev or_shape : Option (Handler w) → Option (Handler w) → Option (Handler w)
  or_shape (some h) later = some h
  or_shape none later = later

  -- nothing is registered under an attribute that is missing or empty
  abbrev registered : Dict (Handler w) → String → Option (Handler w)
  registered handlers key = if str_eq key "" then none else get handlers key

  -- `Lookup`: the type, then the shape
  unfoldable pub lookup_handler : Registry w → Node → Option (Handler w)
  lookup_handler r n =
      or_shape (registered r.by_type (index n.attrs "type"))
        (registered r.by_shape (index n.attrs "shape"))

  unfoldable pub checkpoint : String → State w → Checkpoint
  unfolding snapshot
  checkpoint current s = record {
    run_id = s.run_id;
    current_node = current;
    completed = map (λ (id, b). id) s.completed;
    retry_counters = s.retry_counters;
    context = snapshot s.pctx;
    logs = s.pctx.logs;
    visit_log = s.visit_log;
    cxdb_context_id = (w.recorder s.world).0;
    cxdb_head_turn = (w.recorder s.world).1;
  }

  -- An error of the write is only logged.
  unfoldable pub save_checkpoint : String → State w → State w
  save_checkpoint current s =
      let written = w.write_checkpoint (checkpoint current s) s.world in
      let t = record s { world = written.1 } in
      if written.0
      then emit (checkpoint_saved current) (record t { saved = some (checkpoint current s) })
      else t

  abbrev pub complete : String → State w → State w
  complete id s = record s { completed = put s.completed id true }

  abbrev pub visit : String → StageStatus → ℕ → State w → State w
  visit id status attempt s = record s {
    visit_log = s.visit_log ++ record { node_id = id; status = status; attempt = attempt } ∷ [];
  }

  unfoldable pub count_retry : String → State w → State w
  unfolding counter store
  count_retry id s =
      let n = suc (counter s id) in
      record s {
        retry_counters = put s.retry_counters id n;
        pctx = store s.pctx (append "internal.retry_count." id) (itoa n);
      }

  -- `outcome.ContextUpdates` may be nil: then nothing is merged.
  unfoldable pub merge_updates : Outcome → State w → State w
  unfolding merge_all
  merge_updates o s = record s { pctx = merge_all s.pctx o.context_updates }

  unfoldable pub start_stage : String → State w → State w
  unfolding store
  start_stage id s = emit (stage_started id) (record s { pctx = store s.pctx "current_node" id })

  abbrev pub report : String → Outcome → State w → State w
  report id o s =
      if is_success o
      then emit (stage_completed id o.status) s
      else if is_fail o.status
      then emit (stage_failed id) s
      else s

  abbrev pub store_label : String → State w → State w
  store_label label s =
      if str_eq label "" then s else record s { pctx = store s.pctx "preferred_label" label }

  -- From the report of an outcome to the record of the visit.
  unfoldable pub apply_outcome : String → Outcome → State w → State w
  unfolding store merge_updates
  apply_outcome id o s =
      let r = report id o s in
      let m = merge_updates o (record r { world = w.write_status id o r.world }) in
      let t =
        store_label o.preferred_label
          (record m { pctx = store m.pctx "outcome" (status_text o.status) }) in
      visit id o.status (counter t id + 1) t

  -- `preamble` is fidelity.GeneratePreamble.
  module _ (preamble : String → String → String → List VisitEntry → String) where
    abbrev pub with_preamble : String → State w → State w
    with_preamble mode s =
        let text = preamble mode s.run_id (text_or (lookup s.pctx "goal")) s.visit_log in
        if str_eq text "" then s else record s { pctx = store s.pctx "internal.preamble" text }

    unfoldable pub execute_node :
        Registry w → Graph → Node → State w → Result RunError Outcome × State w
    unfolding lookup_handler
    execute_node registry g n s = elim (lookup_handler registry n) [
      | none ↦ (err (no_handler n.id), s)
      | some h ↦
          let mode = Mode.resolve none (some n) (some g) in
          let t = with_preamble mode s in
          let r = h mode n t.pctx g t.world in
          (
            elim r.result [ err x ↦ err (execute_failed n.id x) | ok o ↦ ok o ],
            record t { pctx = r.pctx; world = r.world },
          )
    ]

  abbrev pub write_child : Graph → String → Outcome → State w → State w
  write_child g id o s = elim (node_by_id g id) [
    | none ↦ s
    | some n ↦ record s { world = w.write_status id o s.world }
  ]

  -- The children of a fan-out are applied in the order in which Go ranges over them.
  unfoldable pub apply_children : Graph → Dict Outcome → State w → State w
  apply_children g [] s = s
  apply_children g ((id, o) ∷ os) s =
      let t = write_child g id o (complete id (merge_updates o s)) in
      apply_children g os (emit (stage_completed id o.status) (visit id o.status 1 t))

  unfoldable pub handle_parallel_complete : Graph → String → State w → Option String × State w
  unfolding apply_children find_convergence successors
  handle_parallel_complete g id s = elim (lookup s.pctx "parallel.results") [
    | none ↦ (none, s)
    | some text ↦ elim (w.unmarshal_outcomes text) [
      | none ↦ (none, s)
      | some outcomes ↦ (find_convergence g (successors g id), apply_children g outcomes s)
    ]
  ]

  abbrev pub complete_all : List String → State w → State w
  complete_all [] s = s
  complete_all (id ∷ ids) s = complete_all ids (complete id s)

  -- Without children no one is completed and there is no continuation.
  unfoldable pub handle_manager_loop_complete : Graph → String → State w → Option String × State w
  unfolding continuation
  handle_manager_loop_complete g id s =
      (continuation g (successors g id), complete_all (successors g id) s)
