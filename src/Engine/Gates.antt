-- ===== src/Engine/Gates.antt =====
-- internal/attractor/engine.go: the goal gates, the retry targets, the convergence of branches.
pub mod Latest
use dfgo.Prelude.{
  String, Bool, true, false, not, ◌&&◌, if◌then◌else◌, List, [], ◌∷◌, Option, some, none, str_eq,
  find?, map,
}
use dfgo.Prelude.Dict.{Dict, get, put}
use dfgo.Model.Graph.{Node, Graph, node_by_id, successors}
use dfgo.Model.Attrs.{bool_attr, string_attr}
use dfgo.Runtime.Outcome.{StageStatus, is_success_status}
use dfgo.Runtime.Checkpoint.{VisitEntry}

-- the last visit wins
unfoldable pub latest_from : Dict StageStatus → List VisitEntry → Dict StageStatus
latest_from latest [] = latest
latest_from latest (v ∷ vs) = latest_from (put latest v.node_id v.status) vs

abbrev pub satisfied : Option StageStatus → Bool
satisfied none = false
satisfied (some s) = is_success_status s

unfoldable pub first_unsatisfied : Dict StageStatus → List Node → String
first_unsatisfied latest [] = ""
first_unsatisfied latest (n ∷ ns) =
    let rest = first_unsatisfied latest ns in
    if not (bool_attr n.attrs "goal_gate" false)
    then rest
    else if satisfied (get latest n.id)
    then rest
    else n.id

unfoldable pub check_goal_gates : Graph → List VisitEntry → String
check_goal_gates g log = first_unsatisfied (latest_from [] log) g.nodes

abbrev pub exists : Graph → String → Bool
exists g id = elim (node_by_id g id) [ none ↦ false | some n ↦ true ]

unfoldable pub resolve_retry_target : Graph → String → Option String
resolve_retry_target g id = elim (node_by_id g id) [
  | none ↦ none
  | some n ↦
      find? (λ c. not (str_eq c "") && exists g c)
        (string_attr n.attrs "retry_target" ""
          ∷ string_attr n.attrs "fallback_retry_target" ""
          ∷ string_attr g.attrs "retry_target" ""
          ∷ string_attr g.attrs "fallback_retry_target" ""
          ∷ [])
]

abbrev pub in_list : String → List String → Bool
in_list id [] = false
in_list id (j ∷ js) = let rest = in_list id js in if str_eq j id then true else rest

abbrev pub in_all : String → List (List String) → Bool
in_all id [] = true
in_all id (set ∷ sets) = in_list id set && in_all id sets

-- the first node, by declaration, that every child leads to
abbrev pub converge : Graph → List String → Option String
converge g [] = none
converge g (c ∷ cs) =
    elim (find? (λ (n : Node). in_all n.id (map (successors g) (c ∷ cs))) g.nodes) [
      | none ↦ none
      | some n ↦ some n.id
    ]

unfoldable pub find_convergence : Graph → List String → Option String
find_convergence g children = converge g children

-- the first successor of the first child that has one
unfoldable pub continuation : Graph → List String → Option String
continuation g [] = none
continuation g (c ∷ cs) =
    let rest = continuation g cs in elim (successors g c) [ [] ↦ rest | s ∷ ss ↦ some s ]
