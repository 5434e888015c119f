-- ===== src/Validate/Reach.antt =====
-- internal/attractor/validate/rules.go: the walk of `reachabilityRule`.
pub mod Unseen
pub mod Walk
use dfgo.Prelude.{
  ℕ, zero, suc, String, Bool, false, ◌||◌, List, [], ◌∷◌, str_eq, if◌then◌else◌, length,
}
use dfgo.Model.Graph.{Graph, successors}

-- reachable[id]
unfoldable pub marked : List String → String → Bool
marked [] id = false
marked (v ∷ vs) id = str_eq v id || marked vs id

-- The loop of `walk` over the edges of a node, with the call on one node passed in.
unfoldable pub walk_all :
    (String → List String → List String) → List String → List String → List String
walk_all walk [] seen = seen
walk_all walk (id ∷ ids) seen = walk_all walk ids (walk id seen)

-- `walk`; the fuel bounds how deep the calls nest. Every nested call marks one more target of an
-- edge, so one more than there are edges is enough.
unfoldable pub walk : Graph → ℕ → String → List String → List String
walk g zero id seen = seen
walk g (suc fuel) id seen =
    let deeper = walk_all (walk g fuel) (successors g id) (id ∷ seen) in
    if marked seen id then seen else deeper

unfoldable pub reachable_from : Graph → String → List String
reachable_from g start = walk g (suc (length g.edges)) start []
