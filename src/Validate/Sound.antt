-- ===== src/Validate/Sound.antt =====
-- internal/attractor/validate: what a graph satisfies in which the built-in rules find no error.
use dfgo.Prelude.{
  String, false, List, [], ◌∷◌, ◌++◌, none, keep, All-mono, length, ◌≡◌, ◌≢◌, ◌↔◌, refl, All,
}
use dfgo.Model.Graph.{Node, Edge, Graph, has_shape, node_by_id, out_edges, in_edges, exit_nodes}
use dfgo.Validate.Diagnostic.{Diagnostic, has_errors}
use dfgo.Validate.Reach.Walk.{reachable_from-Reaches}
use dfgo.Validate.Reach.Unseen.{Reaches}
use dfgo.Validate.Reach.{reachable_from}
use dfgo.Validate.Rules.{
  each, start_node_rule, start_no_incoming_rule, terminal_node_rule, exit_no_outgoing_rule,
  reachability_rule, edge_target_exists_rule, condition_syntax_rule, condition_finding,
  exit_finding, reach_finding, edge_finding,
}
use dfgo.Validate.Rules.Errors.{
  NoError, NoError-append, NoError-of_append, NoError-each, NoError-of_each, HasCondition,
  HasStylesheet, start_of_one, starts_iff, exits_iff, incoming_iff, outgoing_iff, reach_iff,
  joins_iff, condition_iff, stylesheet_iff, gate_NoError, prompt_NoError, fidelity_NoError,
  targets_NoError, types_NoError,
}
use dfgo.Validate.Runner.{Rule, builtin_rules, run, with_types}

-- What the rules of severity error ask for, about the graph itself.
pub record IsRunnable (g : Graph) : Type 0 where
  pub start : Node
  pub one_start : keep (has_shape "Mdiamond") g.nodes ≡ start ∷ []
  pub no_incoming : in_edges g start.id ≡ []
  pub has_exit : exit_nodes g ≢ []
  pub no_outgoing : All (λ n. out_edges g n.id ≡ []) (exit_nodes g)
  pub reaches : All (λ n. Reaches g start.id n.id) g.nodes
  pub joins : All (λ (e : Edge). (node_by_id g e.from ≢ none) × (node_by_id g e.to ≢ none)) g.edges
  pub conditions : All HasCondition g.edges
  pub stylesheet : HasStylesheet g

run-append :
    (rs ss : List Rule) (g : Graph)
    → NoError (run rs g)
    → NoError (run ss g)
    → NoError (run (rs ++ ss) g)
unfolding run
run-append [] ss g h k = k
run-append (r ∷ rs) ss g h k =
    let p = NoError-append (r g) (run rs g) h in
    NoError-of_append (r g) (run (rs ++ ss) g) p.0 (run-append rs ss g p.1 k)

NoError-run : (rs : List Rule) (g : Graph) → NoError (run rs g) → All (λ r. NoError (r g)) rs
unfolding run
NoError-run [] g h = tt
NoError-run (r ∷ rs) g h = let p = NoError-append (r g) (run rs g) h in (p.0, NoError-run rs g p.1)

NoError-of_run : (rs : List Rule) (g : Graph) → All (λ r. NoError (r g)) rs → NoError (run rs g)
unfolding run has_errors
NoError-of_run [] g h = refl
NoError-of_run (r ∷ rs) g h = NoError-of_append (r g) (run rs g) h.0 (NoError-of_run rs g h.1)

module _ {A : Type 0} (f : A → List Diagnostic) (P : A → Type 0)
    (h : (x : A) → NoError (f x) ↔ P x) where
  each_iff : (xs : List A) → NoError (each f xs) ↔ All P xs
  each_iff xs = (
    λ k. All-mono (λ x. NoError (f x)) P (λ x. (h x).0) xs (NoError-each f xs k),
    λ k. NoError-of_each f xs (All-mono P (λ x. NoError (f x)) (λ x. (h x).1) xs k),
  )

-- the rules about the start node, given the start node
module _ (g : Graph) (start : Node) (one : keep (has_shape "Mdiamond") g.nodes ≡ start ∷ []) where
  no_incoming_iff : NoError (start_no_incoming_rule g) ↔ (in_edges g start.id ≡ [])
  unfolding start_no_incoming_rule
  no_incoming_iff =
      rw (start_of_one g start one, start_no_incoming_rule)
        (incoming_iff (in_edges g start.id) start.id (length (in_edges g start.id)))

  reachability_iff : NoError (reachability_rule g) ↔ All (λ n. Reaches g start.id n.id) g.nodes
  unfolding reachability_rule
  reachability_iff =
      rw (start_of_one g start one, reachability_rule)
        (each_iff (reach_finding (reachable_from g start.id)) (λ n. Reaches g start.id n.id) reached
          g.nodes)
    where
      reached :
          (n : Node)
          → NoError (reach_finding (reachable_from g start.id) n) ↔ Reaches g start.id n.id
      reached n = (
        (λ h.
            (reachable_from-Reaches g start.id n.id).0
              ((reach_iff (reachable_from g start.id) n).0 h)),
        (λ h.
            (reach_iff (reachable_from g start.id) n).1
              ((reachable_from-Reaches g start.id n.id).1 h)),
      )

module _ (g : Graph) where
  start_iff :
      NoError (start_node_rule g)
      ↔ ((start : Node) × (keep (has_shape "Mdiamond") g.nodes ≡ start ∷ []))
  unfolding start_node_rule
  start_iff = starts_iff (keep (has_shape "Mdiamond") g.nodes)

  exit_iff : NoError (terminal_node_rule g) ↔ (exit_nodes g ≢ [])
  unfolding terminal_node_rule
  exit_iff = exits_iff (exit_nodes g)

  no_outgoing_iff :
      NoError (exit_no_outgoing_rule g) ↔ All (λ n. out_edges g n.id ≡ []) (exit_nodes g)
  unfolding exit_no_outgoing_rule
  no_outgoing_iff = each_iff (exit_finding g) _ (outgoing_iff g) (exit_nodes g)

  targets_iff :
      NoError (edge_target_exists_rule g)
      ↔ All (λ (e : Edge). (node_by_id g e.from ≢ none) × (node_by_id g e.to ≢ none)) g.edges
  unfolding edge_target_exists_rule
  targets_iff = each_iff (edge_finding g) _ (joins_iff g) g.edges

  conditions_iff : NoError (condition_syntax_rule g) ↔ All HasCondition g.edges
  unfolding condition_syntax_rule
  conditions_iff = each_iff condition_finding HasCondition condition_iff g.edges

-- The built-in rules report no finding of severity error exactly for a graph with one start node
-- that no edge enters, an exit node, no edge out of an exit node, a path from the start to every
-- node, both ends of every edge among the nodes, every condition empty or parsing, and a
-- stylesheet that is empty or parses, whatever handler types are known.
pub run-IsRunnable :
    (known : List String) (g : Graph)
    → (has_errors (run (builtin_rules known) g) ≡ false) ↔ IsRunnable g
unfolding builtin_rules
run-IsRunnable known g = (there, back)
  where
    there : NoError (run (builtin_rules known) g) → IsRunnable g
    there h =
        let p = NoError-run (builtin_rules known) g h in
        let s = (start_iff g).0 p.0 in
        record {
          start = s.0;
          one_start = s.1;
          no_incoming = (no_incoming_iff g s.0 s.1).0 p.1.0;
          has_exit = (exit_iff g).0 p.1.1.0;
          no_outgoing = (no_outgoing_iff g).0 p.1.1.1.0;
          reaches = (reachability_iff g s.0 s.1).0 p.1.1.1.1.0;
          joins = (targets_iff g).0 p.1.1.1.1.1.0;
          conditions = (conditions_iff g).0 p.1.1.1.1.1.1.0;
          stylesheet = (stylesheet_iff g).0 p.1.1.1.1.1.1.1.1.1.0;
        }

    back : IsRunnable g → NoError (run (builtin_rules known) g)
    back r =
        run-append (builtin_rules []) (with_types known) g
          (NoError-of_run (builtin_rules []) g (
            (start_iff g).1 (r.start, r.one_start),
            (
              (no_incoming_iff g r.start r.one_start).1 r.no_incoming,
              (
                (exit_iff g).1 r.has_exit,
                (
                  (no_outgoing_iff g).1 r.no_outgoing,
                  (
                    (reachability_iff g r.start r.one_start).1 r.reaches,
                    (
                      (targets_iff g).1 r.joins,
                      (
                        (conditions_iff g).1 r.conditions,
                        (
                          gate_NoError g,
                          (
                            prompt_NoError g,
                            (
                              (stylesheet_iff g).1 r.stylesheet,
                              (fidelity_NoError g, (targets_NoError g, tt)),
                            ),
                          ),
                        ),
                      ),
                    ),
                  ),
                ),
              ),
            ),
          ))
          (types_NoError known g)
