-- ===== src/Engine/Bound/Back.antt =====
-- internal/attractor/engine.go: how often a run goes back for a retry of a node.
use dfgo.Prelude.{
  ℕ, zero, suc, ◌+◌, ◌≤◌, String, Bool, true, false, ◌&&◌, str_eq, eq_iff, if◌then◌else◌, List,
  some, none, ◌≡◌, ◌≢◌, refl, inl, inr, Bool-cases, Option-cases, All, arith,
}
use dfgo.Prelude.Dict.{index}
use dfgo.Model.Graph.{Node, Edge, Graph, has_shape, node_by_id, out_edges}
use dfgo.Model.Attrs.{Floats}
use dfgo.Runtime.Checkpoint.{VisitEntry}
use dfgo.Engine.State.{World, Registry, State, Next, goto, stop, failed, counter}
use dfgo.Engine.Gates.{check_goal_gates}
use dfgo.Engine.Step.{retry_limit, exit_step, run_node, at_node, step}
use dfgo.Engine.Step.Changes.{Holds}
use dfgo.Engine.Step.Keeps.{step-Holds}
use dfgo.Engine.Bound.{allowed, IsBounded, Bounded-IsKept}
use dfgo.Engine.Bound.Counted.{AtLeast, AtLeast-IsKept, run_node-Counted, exit_step-Counted}

abbrev pub is_exit : Graph → String → Bool
is_exit g at = elim (node_by_id g at) [ none ↦ false | some n ↦ has_shape "Msquare" n ]

-- The turn goes back for a retry of the node: straight from the node to itself, or from an exit
-- that refuses for the node's sake, wherever to.
abbrev pub goes_back : Graph → String → String → List VisitEntry → Next → Bool
goes_back g id at log (goto next) =
    if is_exit g at then str_eq (check_goal_gates g log) id else str_eq at id && str_eq next id
goes_back g id at log stop = false
goes_back g id at log (failed x) = false

abbrev pub count_if : Bool → ℕ
count_if true = 1
count_if false = 0

abbrev pub behind : {w : World} → (String → State w → ℕ) → Next × State w → ℕ
behind again (goto next, t) = again next t
behind again (stop, t) = 0
behind again (failed x, t) = 0

module _ (fl : Floats) {w : World} (preamble : String → String → String → List VisitEntry → String)
    (registry : Registry w) where
  -- The retries of a node in so many turns from a node and a state on, without a look at the counters.
  abbrev pub retries : ℕ → Graph → String → String → State w → ℕ
  retries zero g id at s = 0
  retries (suc turns) g id at s =
      let r = step fl preamble registry g at s in
      count_if (goes_back g id at s.visit_log r.0) + behind (retries turns g id) r

goes_back_exit :
    (g : Graph) (id at : String) (log : List VisitEntry) (r : Next)
    → is_exit g at ≡ true
    → goes_back g id at log r ≡ true
    → (next : String) × (r ≡ goto next) × (check_goal_gates g log ≡ id)
goes_back_exit g id at log (goto next) e h =
    (next, refl, (eq_iff (check_goal_gates g log) id).0 (ground (arith, e, h)))
goes_back_exit g id at log stop e h = cc
goes_back_exit g id at log (failed x) e h = cc

goes_back_node :
    (g : Graph) (id at : String) (log : List VisitEntry) (r : Next)
    → is_exit g at ≡ false
    → goes_back g id at log r ≡ true
    → (next : String) × (r ≡ goto next) × (at ≡ id) × (next ≡ id)
goes_back_node g id at log (goto next) e h =
    (next, refl, (eq_iff at id).0 (ground (arith, e, h)), (eq_iff next id).0 (ground (arith, e, h)))
goes_back_node g id at log stop e h = cc
goes_back_node g id at log (failed x) e h = cc

module _ (fl : Floats) {w : World} (preamble : String → String → String → List VisitEntry → String)
    (registry : Registry w) (g : Graph) (id : String) (n : Node) (there : node_by_id g id ≡ some n)
    (no_loop : All (λ (e : Edge). e.to ≢ id) (out_edges g id))
    (not_parallel : index n.attrs "type" ≢ "parallel")
    (not_manager : index n.attrs "type" ≢ "stack.manager_loop") where
  step-Counted :
      (k : ℕ) (at : String) (s : State w)
      → Holds (AtLeast id k) s
      → goes_back g id at s.visit_log (step fl preamble registry g at s).0 ≡ true
      → Holds (AtLeast id (suc k)) (step fl preamble registry g at s).1
  unfolding step
  step-Counted k at s h = elim (Bool-cases (w.is_done s.world).0) [
    | inl a ↦ rw (a, step) (λ back. cc)
    | inr a ↦ elim (Option-cases (node_by_id g at)) [
      | inl p ↦ rw (a, p, step, at_node) (λ back. cc)
      | inr (m, p) ↦
          let t = record s { world = (w.is_done s.world).1 } in
          let held : Holds (AtLeast id k) t = record { held = h.held } in
          elim (Bool-cases (has_shape "Msquare" m)) [
            | inl b ↦
                rw (a, p, b, step, at_node)
                  (λ back.
                    let (next, e, gate) =
                      goes_back_exit g id at s.visit_log (exit_step g at t).0 (rw (is_exit, p) b)
                        back in
                    exit_step-Counted g id k at next t held gate e)
            | inr b ↦
                rw (a, p, b, step, at_node)
                  (λ back.
                    let (next, e, here, same) =
                      goes_back_node g id at s.visit_log (run_node fl preamble registry g m at t).0
                        (rw (is_exit, p) b) back in
                    let one : m ≡ n = cc in
                    rw (here, one)
                      (run_node-Counted g id k fl n no_loop not_parallel not_manager preamble
                        registry t held next (rw (here, one) at e) same))
          ]
    ]
  ]

  count_if-counter :
      (b : Bool) (s t : State w)
      → (b ≡ true → Holds (AtLeast id (suc (counter s id))) t)
      → Holds (AtLeast id (counter s id)) t
      → count_if b + counter s id ≤ counter t id
  unfolding counter
  count_if-counter true s t back grown = let h = (back refl).held in omega (arith, h)
  count_if-counter false s t back grown = let h = grown.held in omega (arith, h)

  behind_bounded :
      (again : String → State w → ℕ) (limit : ℕ) (r : Next × State w)
      → counter r.1 id ≤ limit
      → ((next : String) → again next r.1 + counter r.1 id ≤ limit)
      → behind again r + counter r.1 id ≤ limit
  behind_bounded again limit (goto next, t) h rest = rest next
  behind_bounded again limit (stop, t) h rest = omega (arith, h)
  behind_bounded again limit (failed x, t) h rest = omega (arith, h)

  -- For a node of the graph that no edge leads to from itself and whose type is not that of a fan-out
  -- or a manager loop: in any number of turns, from any node and any state whose counters are within
  -- their limits, as in a new run, whatever the handlers do and whatever the world answers, the run
  -- goes back for a retry of the node, from the node itself or from an exit that refuses for its
  -- sake, no more often than the node's max_retries allows (the graph's default_max_retry, or 50,
  -- where the node has none), less the retries that are counted at the start.
  pub retries_bounded :
      (turns : ℕ) (at : String) (s : State w)
      → IsBounded g s
      → retries fl preamble registry turns g id at s + counter s id ≤ allowed (retry_limit g n)
  retries_bounded zero at s h = let b = h id n there in omega (arith, b)
  retries_bounded (suc turns) at s h =
      let r = step fl preamble registry g at s in
      let limit = allowed (retry_limit g n) in
      let kept : IsBounded g r.1 =
        unfold counter in
        (step-Holds (Bounded-IsKept g) fl preamble registry at s (record { held = h })).held in
      let same : Holds (AtLeast id (counter s id)) s = record {
        held = unfold counter in omega arith;
      } in
      let grown =
        count_if-counter (goes_back g id at s.visit_log r.0) s r.1
          (step-Counted (counter s id) at s same)
          (step-Holds (AtLeast-IsKept g id (counter s id)) fl preamble registry at s same) in
      let rest =
        behind_bounded (retries fl preamble registry turns g id) limit r (kept id n there)
          (λ next. retries_bounded turns next r.1 kept) in
      omega (arith, grown, rest)
