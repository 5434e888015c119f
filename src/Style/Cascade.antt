-- ===== src/Style/Cascade.antt =====
-- internal/attractor/style/stylesheet.go: the cascade of the rules that match a node, and the
-- nodes of a styled graph.
use dfgo.Prelude.{
  ℕ, zero, suc, String, false, List, [], ◌∷◌, ◌++◌, some, none, ◌≡◌, ◌≢◌, ◌⊎◌, refl, sym, ap, inl,
  inr, Option-cases, arith, All, eq_iff, map, get_elem?,
}
use mathlib.Core.Path.{subst}
use mathlib.Core.List.{Perm, perm_middle}
use mathlib.Core.List.Perm
use dfgo.Prelude.Dict.{Dict, get, merge, get-put, get-merge, or_else}
use dfgo.Prelude.Sort.{sort, IsSorted, IsOrder, sort-IsSorted, sort-perm, All-of_sort}
use dfgo.Model.Graph.{Node, Graph, node_by_id}
use dfgo.Style.{
  Stylesheet, Match, matches_from, by_spec, merge_matches, resolve, fill, style_node, apply,
}

by_spec-IsOrder : IsOrder by_spec
by_spec-IsOrder = record {
  asym = λ a b h. ground (arith, h);
  neg_trans = λ a b c h k. ground (arith, h, k);
}

by_spec_irrefl : (m : Match) → by_spec m m ≡ false
by_spec_irrefl m = ground arith

-- the last of the list that sets a property
record IsLastToSet (j v : String) (ms : List Match) : Type 0 where
  before : List Match
  winner : Match
  after : List Match
  splits : ms ≡ before ++ winner ∷ after
  sets : get winner.props j ≡ some v
  none_after : All (λ (m : Match). get m.props j ≡ none) after

merge_matches-IsLastToSet :
    (ms : List Match) (r : Dict String) (j v : String)
    → get (merge_matches r ms) j ≡ some v
    → IsLastToSet j v ms ⊎ (get r j ≡ some v) × All (λ (m : Match). get m.props j ≡ none) ms
unfolding merge_matches
merge_matches-IsLastToSet [] r j v h = inr (h, tt)
merge_matches-IsLastToSet (m ∷ ms) r j v h =
    elim (merge_matches-IsLastToSet ms (merge r m.props) j v h) [
      | inl w ↦ inl (record {
        before = m ∷ w.before;
        winner = w.winner;
        after = w.after;
        splits = ap (λ l. m ∷ l) w.splits;
        sets = w.sets;
        none_after = w.none_after;
      })
      | inr (p, rest) ↦ elim (Option-cases (get m.props j)) [
        | inl e ↦ inr (ground (arith, get-merge r m.props j, e, p), (e, rest))
        | inr (x, e) ↦ inl (record {
          before = [];
          winner = m;
          after = ms;
          splits = refl;
          sets = ground (arith, get-merge r m.props j, e, p);
          none_after = rest;
        })
      ]
    ]

-- A rule that sets the property does not come after the winner.
abbrev pub NotAbove : String → Match → Match → Type 0
NotAbove j w m = get m.props j ≢ none → by_spec w m ≡ false

-- The rule that gives a property its value among those that match a node.
pub record IsCascaded (j v : String) (ms : List Match) : Type 0 where
  pub winner : Match
  pub others : List Match
  pub is_one : Perm (winner ∷ others) ms
  pub sets : get winner.props j ≡ some v
  pub none_above : All (NotAbove j winner) ms

above :
    (j : String) (before after : List Match) (w : Match)
    → IsSorted by_spec (before ++ w ∷ after)
    → All (λ (m : Match). get m.props j ≡ none) after
    → All (NotAbove j w) (before ++ w ∷ after)
above j [] after w s h = ((λ _. by_spec_irrefl w), unset after h)
  where
    unset : (ms : List Match) → All (λ (m : Match). get m.props j ≡ none) ms → All (NotAbove j w) ms
    unset [] k = tt
    unset (m ∷ ms) k = ((λ p. absurd (p k.0)), unset ms k.1)
above j (m ∷ before) after w s h = ((λ _. later before s.0), above j before after w s.1 h)
  where
    later :
        (ms : List Match) → All (λ y. by_spec y m ≡ false) (ms ++ w ∷ after) → by_spec w m ≡ false
    later [] k = k.0
    later (d ∷ ms) k = later ms k.1

-- The value that the stylesheet gives a property of a node is set by a rule that matches the node,
-- and no matching rule that sets the property is more specific, or as specific and later.
pub resolve-IsCascaded :
    (ss : Stylesheet) (n : Node) (j v : String)
    → get (resolve ss n) j ≡ some v
    → IsCascaded j v (matches_from 0 ss n)
unfolding resolve get
resolve-IsCascaded ss n j v h = elim (merge_matches-IsLastToSet (sort by_spec ms) [] j v h) [
  | inr (p, q) ↦ cc
  | inl w ↦ record {
    winner = w.winner;
    others = w.before ++ w.after;
    is_one =
        Perm.trans (Perm.symm (perm_middle w.before w.after))
          (subst (λ l. Perm l ms) w.splits (sort-perm by_spec ms));
    sets = w.sets;
    none_above = All-of_sort by_spec (NotAbove j w.winner) ms (
        subst (λ l. All (NotAbove j w.winner) l) (sym w.splits)
          (above j w.before w.after w.winner
            (subst (IsSorted by_spec) w.splits (sort-IsSorted by_spec by_spec-IsOrder ms))
            w.none_after));
  }
]
  where
    ms : List Match
    ms = matches_from 0 ss n

get-fill :
    (attrs props : Dict String) (j : String)
    → get (fill attrs props) j ≡ or_else (get attrs j) (get props j)
unfolding fill get
get-fill attrs [] j = elim (Option-cases (get attrs j)) [
  | inl e ↦ rw (e, or_else) refl
  | inr (v, e) ↦ rw (e, or_else) refl
]
get-fill attrs ((k, v) ∷ props) j =
    ground (arith, get-fill attrs props j, get-put (fill attrs props) k j v, eq_iff k j)

get_elem?-map :
    (f : Node → Node) (ns : List Node) (i : ℕ) (n : Node)
    → get_elem? ns i ≡ some n
    → get_elem? (map f ns) i ≡ some (f n)
get_elem?-map f [] i n h = cc
get_elem?-map f (m ∷ ns) zero n h = cc
get_elem?-map f (m ∷ ns) (suc i) n h = get_elem?-map f ns i n h

-- A node of a styled graph has the attributes of the node with its ID before, and for each other
-- key what the stylesheet resolves it to: an attribute that is written at the node is kept.
pub node_by_id-apply :
    (ss : Stylesheet) (g : Graph) (id : String) (n : Node)
    → node_by_id g id ≡ some n
    → (m : Node) × (node_by_id (apply ss g) id ≡ some m)
      × ((key : String) → get m.attrs key ≡ or_else (get n.attrs key) (get (resolve ss n) key))
unfolding apply node_by_id
node_by_id-apply ss g id n h = (style_node ss n, found, λ key. get-fill n.attrs (resolve ss n) key)
  where
    found : node_by_id (apply ss g) id ≡ some (style_node ss n)
    found = elim (Option-cases (get g.nodes_by_id id)) [
      | inl e ↦ absurd (cc (rw (e, node_by_id) at h))
      | inr (i, e) ↦
          rw (e, node_by_id) (get_elem?-map (style_node ss) g.nodes i n (rw (e, node_by_id) at h))
    ]
