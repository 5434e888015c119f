-- ===== src/Engine/Targets.antt =====
-- internal/attractor/engine.go: the nodes that a run may move to.
use dfgo.Prelude.{
  String, Bool, true, false, not, ◌&&◌, List, [], ◌∷◌, Option, some, none, str_eq, ◌≡◌, ◌≢◌, ◌⊎◌,
  refl, Bool-cases, inl, inr, Option-cases, arith, All, All-mono, All-keep, find?-All, find?_passes,
  find?, keep, map, eq_refl,
}
use dfgo.Prelude.Dict.{get}
use dfgo.Prelude.Sort.{sort, All-sort}
use dfgo.Model.Graph.{Node, Edge, Graph, node_by_id, out_edges, successors}
use dfgo.Model.Graph.Edges.{out_edges-All, successors-All}
use dfgo.Model.Graph.Index.{IsIndexed, find_node, node_by_id-eq-find_node}
use dfgo.Model.Attrs.{Floats, bool_attr, string_attr}
use dfgo.EdgeSelect.{
  select, select_from, condition_holds, env_of, by_label, by_suggestion, has_label, by_weight,
  heavier, filter_unconditional, is_unconditional, first, or_try,
}
use dfgo.Runtime.Outcome.{Outcome}
use dfgo.Runtime.Context.{Context}
use dfgo.Runtime.Checkpoint.{VisitEntry}
use dfgo.Engine.Gates.{
  latest_from, satisfied, first_unsatisfied, check_goal_gates, exists, resolve_retry_target,
  find_convergence, converge, continuation, in_all,
}

abbrev pub Present : Graph → String → Type 0
Present g id = node_by_id g id ≢ none

-- The index is in step and every edge leads to a node.
pub record IsSound (g : Graph) : Type 0 where
  pub indexed : IsIndexed g
  pub leads : All (λ (e : Edge). Present g e.to) g.edges

-- What an option holds has a property.
abbrev pub Inside {ℓ} : {A : Type ℓ} → (A → Type 0) → Option A → Type 0
Inside P none = Unit
Inside P (some a) = P a

-- Every node is found under its own ID.
find_node-own : (ns : List Node) → All (λ n. find_node n.id ns ≢ none) ns
find_node-own [] = tt
find_node-own (m ∷ ns) = (
  (λ e. cc (rw eq_refl at e)),
  All-mono (λ n. find_node n.id ns ≢ none) (λ n. find_node n.id (m ∷ ns) ≢ none) (λ n h. later n h)
      ns (find_node-own ns),
)
  where
    later : (n : Node) → find_node n.id ns ≢ none → find_node n.id (m ∷ ns) ≢ none
    later n h e = h (ground (arith, e))

find?_passing : (p : String → Bool) (cs : List String) → Inside (λ c. p c ≡ true) (find? p cs)
find?_passing p cs = elim (Option-cases (find? p cs)) [
  | inl e ↦ rw e tt
  | inr (c, e) ↦ rw e (find?_passes p cs c e)
]

module _ (g : Graph) where
  pub nodes-Present : IsIndexed g → All (λ n. Present g n.id) g.nodes
  nodes-Present ix =
      All-mono (λ n. find_node n.id g.nodes ≢ none) (λ n. Present g n.id)
        (λ n h. rw (node_by_id-eq-find_node g n.id ix) h) g.nodes (find_node-own g.nodes)

  -- The gate that is reported is a node, where one is.
  pub check_goal_gates-Present :
      (log : List VisitEntry)
      → IsSound g
      → (check_goal_gates g log ≡ "") ⊎ Present g (check_goal_gates g log)
  unfolding check_goal_gates first_unsatisfied
  check_goal_gates-Present log s = gate g.nodes (nodes-Present s.indexed)
    where
      gate :
          (ns : List Node)
          → All (λ n. Present g n.id) ns
          → (first_unsatisfied (latest_from [] log) ns ≡ "")
            ⊎ Present g (first_unsatisfied (latest_from [] log) ns)
      gate [] h = inl refl
      gate (n ∷ ns) h = elim (Bool-cases (bool_attr n.attrs "goal_gate" false)) [
        | inr a ↦ rw (a, first_unsatisfied) (gate ns h.1)
        | inl a ↦ elim (Bool-cases (satisfied (get (latest_from [] log) n.id))) [
          | inl b ↦ rw (a, b, first_unsatisfied) (gate ns h.1)
          | inr b ↦ rw (a, b, first_unsatisfied) (inr h.0)
        ]
      ]

  pub exists-Present : (id : String) → exists g id ≡ true → Present g id
  exists-Present id h = ground (arith, h)

  pub resolve_retry_target-Present : (id : String) → Inside (Present g) (resolve_retry_target g id)
  unfolding resolve_retry_target
  resolve_retry_target-Present id = elim (Option-cases (node_by_id g id)) [
    | inl e ↦ rw (e, resolve_retry_target) tt
    | inr (n, e) ↦
        rw (e, resolve_retry_target) (found (targets n) (find?_passing usable (targets n)))
  ]
    where
      usable : String → Bool
      usable c = not (str_eq c "") && exists g c

      targets : Node → List String
      targets n =
          string_attr n.attrs "retry_target" ""
          ∷ string_attr n.attrs "fallback_retry_target" ""
          ∷ string_attr g.attrs "retry_target" ""
          ∷ string_attr g.attrs "fallback_retry_target" ""
          ∷ []

      found :
          (cs : List String)
          → Inside (λ c. usable c ≡ true) (find? usable cs)
          → Inside (Present g) (find? usable cs)
      found cs h = elim (Option-cases (find? usable cs)) [
        | inl e ↦ rw e tt
        | inr (c, e) ↦ rw e (exists-Present c (ground (arith, rw e at h)))
      ]

  pub find_convergence-Present :
      (ids : List String) → IsSound g → Inside (Present g) (find_convergence g ids)
  unfolding find_convergence
  find_convergence-Present [] s = tt
  find_convergence-Present (c ∷ cs) s =
      elim (Option-cases
        (find? (λ (n : Node). in_all n.id (map (successors g) (c ∷ cs))) g.nodes)) [
          | inl e ↦ rw (e, converge) tt
          | inr (n, e) ↦
              rw (e, converge)
                (find?-All (λ (n : Node). Present g n.id) _ g.nodes n e (nodes-Present s.indexed))
        ]

  pub continuation-Present :
      (ids : List String) → IsSound g → Inside (Present g) (continuation g ids)
  unfolding continuation
  continuation-Present [] s = tt
  continuation-Present (c ∷ cs) s =
      here (successors g c) (successors-All g (Present g) c s.leads) (continuation-Present cs s)
    where
      here :
          (ss : List String)
          → All (Present g) ss
          → Inside (Present g) (continuation g cs)
          → Inside
              (Present g)
              (elim ss as (λ _. Option String) [ [] ↦ continuation g cs | t ∷ ts ↦ some t ])
      here [] h k = k
      here (t ∷ ts) h k = h.0

-- What all edges have, the selected one has.
module _ (P : Edge → Type 0) where
  or_try-Inside : (a b : Option Edge) → Inside P a → Inside P b → Inside P (or_try a b)
  or_try-Inside none b h k = k
  or_try-Inside (some e) b h k = h

  find?-Inside : (p : Edge → Bool) (es : List Edge) → All P es → Inside P (find? p es)
  find?-Inside p es h = elim (Option-cases (find? p es)) [
    | inl e ↦ rw e tt
    | inr (d, e) ↦ rw e (find?-All P p es d e h)
  ]

  by_label-Inside : (label : String) (es : List Edge) → All P es → Inside P (by_label label es)
  unfolding by_label
  by_label-Inside label es h = elim (Bool-cases (str_eq label "")) [
    | inl e ↦ rw (e, by_label) tt
    | inr e ↦ rw (e, by_label) (find?-Inside (has_label label) es h)
  ]

  by_suggestion-Inside :
      (ids : List String) (es : List Edge) → All P es → Inside P (by_suggestion ids es)
  unfolding by_suggestion
  by_suggestion-Inside [] es h = tt
  by_suggestion-Inside (id ∷ ids) es h =
      elim (Option-cases (find? (λ (e : Edge). str_eq e.to id) es)) [
        | inl e ↦ rw (e, by_suggestion) (by_suggestion-Inside ids es h)
        | inr (d, e) ↦ rw (e, by_suggestion) (find?-All P _ es d e h)
      ]

  first-Inside : (es : List Edge) → All P es → Inside P (first es)
  first-Inside [] h = tt
  first-Inside (e ∷ es) h = h.0

  module _ (fl : Floats) where
    by_weight-Inside : (es : List Edge) → All P es → Inside P (by_weight fl es)
    unfolding by_weight filter_unconditional
    by_weight-Inside es h =
        or_try-Inside _ _
          (first-Inside (sort (heavier fl) (keep is_unconditional es))
            (All-sort (heavier fl) P _ (All-keep P is_unconditional es h)))
          (first-Inside es h)

    pub select_from-Inside :
        (o : Outcome) (c : Context) (es : List Edge) → All P es → Inside P (select_from fl o c es)
    unfolding select_from
    select_from-Inside o c [] h = tt
    select_from-Inside o c (e ∷ es) h =
        or_try-Inside _ _ (find?-Inside (condition_holds (env_of o c)) (e ∷ es) h) (
          or_try-Inside _ _ (by_label-Inside o.preferred_label (e ∷ es) h) (
            or_try-Inside _ _ (by_suggestion-Inside o.suggested_next_ids (e ∷ es) h)
              (by_weight-Inside (e ∷ es) h)))

    pub select-Inside :
        (g : Graph) (id : String) (o : Outcome) (c : Context)
        → All P g.edges
        → Inside P (select fl g id o c)
    unfolding select
    select-Inside g id o c h = select_from-Inside o c (out_edges g id) (out_edges-All g P id h)
