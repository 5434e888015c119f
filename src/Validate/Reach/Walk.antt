-- ===== src/Validate/Reach/Walk.antt =====
-- internal/attractor/validate/rules.go: which nodes the walk marks.
use dfgo.Prelude.{
  ℕ, zero, suc, ◌≤◌, ◌<◌, String, true, false, List, [], ◌∷◌, str_eq, eq_iff, eq_refl, length, ◌≡◌,
  ◌⊎◌, ◌↔◌, inl, inr, Bool-cases, arith, All, All-mono,
}
use mathlib.Core.Path.{subst}
use dfgo.Model.Graph.{Edge, Graph, successors}
use dfgo.Model.Graph.Edges.{successors-All}
use dfgo.Validate.Reach.{marked, walk_all, walk, reachable_from}
use dfgo.Validate.Reach.Unseen.{
  Reaches, In, unseen, targets, unseen-length, Sub, unseen_mono, Sub-cons, In-head, In-tail,
  marked-nil, In-nil, All-at, unseen-less,
}

-- What a walk over some nodes leaves marked.
record IsExplored (g : Graph) (ids seen marks : List String) : Type 0 where
  keeps : Sub seen marks
  covers : All (In marks) ids
  closed : (v : String) → In marks v → marked seen v ≡ false → All (In marks) (successors g v)

module _ (g : Graph) where
  abbrev IsTarget : String → Type 0
  IsTarget c = targets g.edges c ≡ true

  targets_self : (es : List Edge) → All (λ (e : Edge). targets es e.to ≡ true) es
  targets_self [] = tt
  targets_self (e ∷ es) = (
    simp eq_refl,
    All-mono (λ (d : Edge). targets es d.to ≡ true) (λ (d : Edge). targets (e ∷ es) d.to ≡ true)
        (λ d h. ground (arith, h)) es (targets_self es),
  )

  successors-IsTarget : (id : String) → All IsTarget (successors g id)
  successors-IsTarget id = successors-All g IsTarget id (targets_self g.edges)

  -- enough fuel for a walk from a node
  abbrev Enough : ℕ → String → List String → Type 0
  Enough fuel id seen = In seen id ⊎ (unseen g.edges (id ∷ seen) < fuel)

  abbrev Walks : ℕ → Type 0
  Walks fuel =
      (id : String) (seen : List String)
      → Enough fuel id seen
      → IsExplored g (id ∷ []) seen (walk g fuel id seen)

  walk_all-IsExplored :
      (fuel : ℕ)
      → Walks fuel
      → (ids seen : List String) → All IsTarget ids
      → unseen g.edges seen ≤ fuel
      → IsExplored g ids seen (walk_all (walk g fuel) ids seen)
  unfolding walk_all
  walk_all-IsExplored fuel walks [] seen t h = record {
    keeps = λ v p. p;
    covers = tt;
    closed = λ v p q. cc;
  }
  walk_all-IsExplored fuel walks (id ∷ ids) seen t h =
      let first = walks id seen (enough (Bool-cases (marked seen id))) in
      let rest =
        walk_all-IsExplored fuel walks ids (walk g fuel id seen) t.1
          (ground (arith, h, unseen_mono g.edges seen (walk g fuel id seen) first.keeps)) in
      record {
        keeps = λ v p. rest.keeps v (first.keeps v p);
        covers = (rest.keeps id first.covers.0, rest.covers);
        closed = λ v p q. elim (Bool-cases (marked (walk g fuel id seen) v)) [
          | inl b ↦
              All-mono (In (walk g fuel id seen))
                (In (walk_all (walk g fuel) ids (walk g fuel id seen))) rest.keeps _
                (first.closed v b q)
          | inr b ↦ rest.closed v p b
        ];
      }
    where
      enough : In seen id ⊎ (marked seen id ≡ false) → Enough fuel id seen
      enough (inl b) = inl b
      enough (inr b) = inr (ground (arith, h, unseen-less g.edges seen id t.0 b))

  walk-IsExplored : (fuel : ℕ) → Walks fuel
  unfolding walk
  walk-IsExplored zero id seen h = record {
    keeps = λ v p. p;
    covers = (marked_of_none h, tt);
    closed = λ v p q. cc;
  }
    where
      marked_of_none : Enough zero id seen → In seen id
      marked_of_none (inl b) = b
      marked_of_none (inr b) = absurd (omega arith)
  walk-IsExplored (suc fuel) id seen h = elim (Bool-cases (marked seen id)) [
    | inl b ↦ rw (b, walk) (record { keeps = λ v p. p; covers = (b, tt); closed = λ v p q. cc })
    | inr b ↦
        let deeper =
          walk_all-IsExplored fuel (walk-IsExplored fuel) (successors g id) (id ∷ seen)
            (successors-IsTarget id) (room h b) in
        rw (b, walk)
          (record {
            keeps = λ v p. deeper.keeps v (Sub-cons id seen v p);
            covers = (deeper.keeps id (In-head id seen), tt);
            closed = λ v p q. elim (Bool-cases (str_eq id v)) [
              | inl e ↦
                  subst
                    (λ x.
                      All (In (walk_all (walk g fuel) (successors g id) (id ∷ seen)))
                        (successors g x))
                    ((eq_iff id v).0 e) deeper.covers
              | inr e ↦ deeper.closed v p (new v q e)
            ];
          })
  ]
    where
      room : Enough (suc fuel) id seen → marked seen id ≡ false → unseen g.edges (id ∷ seen) ≤ fuel
      room (inl p) b = absurd (ground (arith, p, b))
      room (inr p) b = omega arith

      new :
          (v : String) → marked seen v ≡ false → str_eq id v ≡ false → marked (id ∷ seen) v ≡ false
      new v q e = unfold marked in ground (arith, q, e)

  -- A walk from nodes that a path leads to marks only such nodes.
  module _ (a : String) where
    abbrev Reached : List String → Type 0
    Reached seen = (v : String) → In seen v → Reaches g a v

    walk_all-Reached :
        (fuel : ℕ)
        → ((id : String) (seen : List String)
            → Reached seen
            → Reaches g a id
            → Reached (walk g fuel id seen))
        → (ids seen : List String) → Reached seen
        → All (Reaches g a) ids
        → Reached (walk_all (walk g fuel) ids seen)
    unfolding walk_all
    walk_all-Reached fuel w [] seen h k = h
    walk_all-Reached fuel w (id ∷ ids) seen h k =
        walk_all-Reached fuel w ids (walk g fuel id seen) (w id seen h k.0) k.1

    next-Reaches : (id : String) → Reaches g a id → All (Reaches g a) (successors g id)
    next-Reaches id r = each (successors g id) (λ c m. Reaches.there id c r m)
      where
        each : (cs : List String) → ((c : String) → In cs c → Reaches g a c) → All (Reaches g a) cs
        each [] f = tt
        each (c ∷ cs) f = (f c (In-head c cs), each cs (λ d m. f d (Sub-cons c cs d m)))

    walk-Reached :
        (fuel : ℕ) (id : String) (seen : List String)
        → Reached seen
        → Reaches g a id
        → Reached (walk g fuel id seen)
    unfolding walk
    walk-Reached zero id seen h r = h
    walk-Reached (suc fuel) id seen h r = elim (Bool-cases (marked seen id)) [
      | inl b ↦ rw (b, walk) h
      | inr b ↦
          rw (b, walk)
            (walk_all-Reached fuel (walk-Reached fuel) (successors g id) (id ∷ seen) head
              (next-Reaches id r))
    ]
      where
        head : Reached (id ∷ seen)
        head v p = elim (Bool-cases (str_eq id v)) [
          | inl e ↦ subst (Reaches g a) ((eq_iff id v).0 e) r
          | inr e ↦ h v (In-tail id v seen p e)
        ]

-- The walk from a node marks exactly the nodes that a path of edges leads to, with the fuel it is
-- given.
pub reachable_from-Reaches :
    (g : Graph) (start id : String)
    → (marked (reachable_from g start) id ≡ true) ↔ Reaches g start id
unfolding reachable_from
reachable_from-Reaches g start id = (there, back id)
  where
    explored : IsExplored g (start ∷ []) [] (walk g (suc (length g.edges)) start [])
    explored =
        walk-IsExplored g (suc (length g.edges)) start []
          (inr (ground (arith, unseen-length g.edges (start ∷ []))))

    there : marked (reachable_from g start) id ≡ true → Reaches g start id
    there =
        walk-Reached g start (suc (length g.edges)) start [] (λ v p. absurd (In-nil v p))
          Reaches.here id

    back : (v : String) → Reaches g start v → marked (reachable_from g start) v ≡ true
    back v Reaches.here = explored.covers.0
    back v (Reaches.there b c r m) =
        All-at (marked (reachable_from g start)) (successors g b) v
          (explored.closed b (back b r) (marked-nil b)) m
