-- ===== src/Engine/Step/Changes.antt =====
-- internal/attractor/engine.go: the changes of the counters, the completed nodes and the visit log.
use dfgo.Prelude.{
  ℕ, suc, String, Bool, true, List, [], ◌∷◌, ◌++◌, Option, some, none, str_eq, ◌≡◌, Bool-cases, inl,
  inr, Option-cases,
}
use mathlib.Core.Path.{subst}
use dfgo.Prelude.Dict.{Dict, put}
use dfgo.Prelude.Text.{lt_int}
use dfgo.Model.Graph.{Node, Graph, node_by_id}
use dfgo.Runtime.Outcome.{Outcome, StageStatus, is_success}
use dfgo.Runtime.Checkpoint.{VisitEntry}
use dfgo.Runtime.Context.{lookup}
use dfgo.Engine.State.{
  Event, stage_completed, stage_failed, RunError, World, Registry, State, Next, goto, stop, failed,
  emit, counter, count_of,
}
use dfgo.Fidelity.Mode
use dfgo.Engine.Node.{
  merge_updates, checkpoint, text_or, save_checkpoint, complete, visit, count_retry, is_fail,
  report, store_label, apply_outcome, with_preamble, lookup_handler, execute_node, write_child,
  apply_children, complete_all,
}
use dfgo.Engine.Step.{retry_limit, may_retry, turn_ends}

abbrev pub Kept : Type 1
Kept = Dict ℕ → Dict Bool → List VisitEntry → Type 0

-- The changes that a turn makes on a graph: each keeps what is to hold.
pub record IsKept (g : Graph) (P : Kept) : Type 0 where
  pub visits :
      (c : Dict ℕ) (d : Dict Bool) (log : List VisitEntry) (v : VisitEntry)
      → P c d log
      → P c d (log ++ v ∷ [])
  pub completes :
      (c : Dict ℕ) (d : Dict Bool) (log : List VisitEntry) (id : String)
      → P c d log
      → P c (put d id true) log
  pub counts :
      (c : Dict ℕ) (d : Dict Bool) (log : List VisitEntry) (id : String) (n : Node)
      → node_by_id g id ≡ some n
      → lt_int (count_of c id) (retry_limit g n) ≡ true
      → P c d log
      → P (put c id (suc (count_of c id))) d log

pub record Holds (P : Kept) {w : World} (s : State w) : Type 0 where
  pub held : P s.retry_counters s.completed s.visit_log

module _ {w : World} (P : Kept) where
  -- the states differ in no field that counts
  pub emit-Holds : (e : Event) (s : State w) → Holds P s → Holds P (emit e s)
  emit-Holds e s h = record { held = h.held }

  pub save_checkpoint-Holds :
      (id : String) (s : State w) → Holds P s → Holds P (save_checkpoint id s)
  unfolding save_checkpoint
  save_checkpoint-Holds id s h =
      elim (Bool-cases (w.write_checkpoint (checkpoint id s) s.world).0) [
        | inl e ↦ rw (e, save_checkpoint) (record { held = h.held })
        | inr e ↦ rw (e, save_checkpoint) (record { held = h.held })
      ]

  pub report-Holds : (id : String) (o : Outcome) (s : State w) → Holds P s → Holds P (report id o s)
  report-Holds id o s h = elim (Bool-cases (is_success o)) [
    | inl e ↦ rw e (emit-Holds (stage_completed id o.status) s h)
    | inr e ↦ elim (Bool-cases (is_fail o.status)) [
      | inl f ↦ rw (e, f) (emit-Holds (stage_failed id) s h)
      | inr f ↦ rw (e, f) h
    ]
  ]

  pub store_label-Holds : (label : String) (s : State w) → Holds P s → Holds P (store_label label s)
  store_label-Holds label s h = elim (Bool-cases (str_eq label "")) [
    | inl e ↦ rw e h
    | inr e ↦ rw e (record { held = h.held })
  ]

  module _ (preamble : String → String → String → List VisitEntry → String) where
    with_preamble-Holds :
        (mode : String) (s : State w) → Holds P s → Holds P (with_preamble preamble mode s)
    with_preamble-Holds mode s h =
        elim (Bool-cases
          (str_eq (preamble mode s.run_id (text_or (lookup s.pctx "goal")) s.visit_log) "")) [
            | inl e ↦ rw e h
            | inr e ↦ rw e (record { held = h.held })
          ]

    pub execute_node-Holds :
        (registry : Registry w) (g : Graph) (n : Node) (s : State w)
        → Holds P s
        → Holds P (execute_node preamble registry g n s).1
    unfolding execute_node
    execute_node-Holds registry g n s h = elim (Option-cases (lookup_handler registry n)) [
      | inl e ↦ rw (e, execute_node) h
      | inr (f, e) ↦
          rw (e, execute_node)
            (record { held = (with_preamble-Holds (Mode.resolve none (some n) (some g)) s h).held })
    ]

  same_end : (p q : Option RunError × State w) → some p ≡ some q → p.1 ≡ q.1
  same_end p q e = cc

  pub turn_ends-Holds :
      (again : String → State w → Option (Option RunError × State w)) {x : Option RunError}
      {t : State w}
      → ((next : String) (u : State w) → again next u ≡ some (x, t) → Holds P u → Holds P t)
      → (r : Next × State w) → turn_ends again r ≡ some (x, t)
      → Holds P r.1
      → Holds P t
  turn_ends-Holds again k (goto next, u) e h = k next u e h
  turn_ends-Holds again {x} {t} k (stop, u) e h = subst (Holds P) (same_end (none, u) (x, t) e) h
  turn_ends-Holds again {x} {t} k (failed y, u) e h =
      subst (Holds P) (same_end (some y, u) (x, t) e) h

module _ {w : World} {g : Graph} {P : Kept} (k : IsKept g P) where
  pub visit-Holds :
      (id : String) (st : StageStatus) (a : ℕ) (s : State w) → Holds P s → Holds P (visit id st a s)
  visit-Holds id st a s h = record { held = k.visits _ _ _ _ h.held }

  pub complete-Holds : (id : String) (s : State w) → Holds P s → Holds P (complete id s)
  complete-Holds id s h = record { held = k.completes _ _ _ _ h.held }

  pub complete_all-Holds :
      (ids : List String) (s : State w) → Holds P s → Holds P (complete_all ids s)
  complete_all-Holds [] s h = h
  complete_all-Holds (id ∷ ids) s h = complete_all-Holds ids (complete id s) (complete-Holds id s h)

  pub count_retry-Holds :
      (id : String) (n : Node) (s : State w)
      → node_by_id g id ≡ some n
      → may_retry g n id s ≡ true
      → Holds P s
      → Holds P (count_retry id s)
  unfolding count_retry may_retry counter
  count_retry-Holds id n s there left h = record { held = k.counts _ _ _ id n there left h.held }

  pub apply_outcome-Holds :
      (id : String) (o : Outcome) (s : State w) → Holds P s → Holds P (apply_outcome id o s)
  unfolding apply_outcome
  apply_outcome-Holds id o s h =
      visit-Holds id o.status _ _
        (store_label-Holds P o.preferred_label _ (record { held = (report-Holds P id o s h).held }))

  pub write_child-Holds :
      (id : String) (o : Outcome) (s : State w) → Holds P s → Holds P (write_child g id o s)
  write_child-Holds id o s h = elim (Option-cases (node_by_id g id)) [
    | inl e ↦ rw (e, write_child) h
    | inr (n, e) ↦ rw (e, write_child) (record { held = h.held })
  ]

  pub apply_children-Holds :
      (os : Dict Outcome) (s : State w) → Holds P s → Holds P (apply_children g os s)
  unfolding apply_children merge_updates
  apply_children-Holds [] s h = h
  apply_children-Holds ((id, o) ∷ os) s h = apply_children-Holds os _ (
      emit-Holds P _ _ (
        visit-Holds id o.status 1 _ (
          write_child-Holds id o _
            (complete-Holds id (merge_updates o s) (record { held = h.held })))))
