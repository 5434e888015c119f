-- ===== src/EdgeSelect/Chosen.antt =====
-- What the selected edge is, stated without the selector's steps.
use dfgo.Prelude.{
  String, Bool, false, List, [], ◌∷◌, Option, none, some, str_eq, keep, find?, ◌≡◌, ◌≢◌, refl, ap,
  ◌∙◌, arith, Bool-cases, inl, inr, Option-cases, ◌⊎◌, ◌↔◌, eq_iff, All,
}
use dfgo.Prelude.Sort.{sort, IsSorted, sort-IsSorted, sort-perm, All-of_sort}
use mathlib.Core.List.{Perm}
use dfgo.Model.Graph.{Edge, Graph, out_edges}
use dfgo.Model.Attrs.{Floats}
use dfgo.Runtime.Outcome.{Outcome}
use dfgo.Runtime.Context.{Context}
use dfgo.EdgeSelect.{
  env_of, condition_holds, by_label, by_suggestion, filter_unconditional, is_unconditional,
  has_label, by_weight, heavier, select_from, select, first, or_try,
}
use dfgo.EdgeSelect.Weights.{FloatLaws, heavier-IsOrder}
use dfgo.EdgeSelect.Firsts.{
  IsFirst, NonePasses, leads_to, IsSuggested, find?-IsFirst, find?-NonePasses,
  by_suggestion-IsSuggested, by_suggestion-none,
}

-- `e` is an unconditional edge, and none of them is heavier.
pub record IsHeaviest (fl : Floats) (e : Edge) (es : List Edge) : Type 0 where
  pub others : List Edge
  pub is_one : Perm (e ∷ others) (keep is_unconditional es)
  pub none_heavier : All (λ d. heavier fl d e ≡ false) (keep is_unconditional es)

-- The edge that a node with the out edges `es` is to be left by.
pub data Chosen (fl : Floats) (o : Outcome) (c : Context) (es : List Edge) (e : Edge) : Type 0 where
  by_true_condition : IsFirst (condition_holds (env_of o c)) e es → Chosen fl o c es e
  by_preferred_label :
      NonePasses (condition_holds (env_of o c)) es
      → o.preferred_label ≢ ""
      → IsFirst (has_label o.preferred_label) e es
      → Chosen fl o c es e
  by_suggested_id :
      NonePasses (condition_holds (env_of o c)) es
      → ((o.preferred_label ≡ "") ⊎ NonePasses (has_label o.preferred_label) es)
      → IsSuggested e o.suggested_next_ids es
      → Chosen fl o c es e
  by_highest_weight :
      NonePasses (condition_holds (env_of o c)) es
      → ((o.preferred_label ≡ "") ⊎ NonePasses (has_label o.preferred_label) es)
      → All (λ j. NonePasses (leads_to j) es) o.suggested_next_ids
      → IsHeaviest fl e es
      → Chosen fl o c es e
  by_declaration_order :
      NonePasses (condition_holds (env_of o c)) es
      → ((o.preferred_label ≡ "") ⊎ NonePasses (has_label o.preferred_label) es)
      → All (λ j. NonePasses (leads_to j) es) o.suggested_next_ids
      → NonePasses is_unconditional es
      → (rest : List Edge) → es ≡ e ∷ rest
      → Chosen fl o c es e

by_label-some :
    (label : String) (es : List Edge) (e : Edge)
    → by_label label es ≡ some e
    → (label ≢ "") × IsFirst (has_label label) e es
unfolding by_label
by_label-some label es e h = elim (Bool-cases (str_eq label "")) [
  | inl b ↦ absurd (ground (arith, b, h))
  | inr b ↦ (
    λ p. cc (b, (eq_iff label "").1 p),
    find?-IsFirst (has_label label) es e (ground (arith, b, h)),
  )
]

by_label-none :
    (label : String) (es : List Edge)
    → by_label label es ≡ none
    → (label ≡ "") ⊎ NonePasses (has_label label) es
unfolding by_label
by_label-none label es h = elim (Bool-cases (str_eq label "")) [
  | inl b ↦ inl ((eq_iff label "").0 b)
  | inr b ↦ inr (find?-NonePasses (has_label label) es (ground (arith, b, h)))
]

some_eq : (d e : Edge) → ◌≡◌ {A = Option Edge} (some d) (some e) → d ≡ e
some_eq d e p = cc

NonePasses-of_keep : (p : Edge → Bool) (es : List Edge) → keep p es ≡ [] → NonePasses p es
NonePasses-of_keep p [] h = tt
NonePasses-of_keep p (e ∷ es) h = elim (Bool-cases (p e)) [
  | inl b ↦ absurd (ground (arith, b, h))
  | inr b ↦ (b, NonePasses-of_keep p es (ground (arith, b, h)))
]

module _ (fl : Floats) (laws : FloatLaws fl) where
  IsHeaviest-of_sort :
      (es sorted : List Edge) (e : Edge)
      → sort (heavier fl) (keep is_unconditional es) ≡ e ∷ sorted
      → IsHeaviest fl e es
  IsHeaviest-of_sort es sorted e p =
      let us = keep is_unconditional es in
      let order = heavier-IsOrder fl laws in
      let s : IsSorted (heavier fl) (e ∷ sorted) = rw p at (sort-IsSorted (heavier fl) order us) in
      record {
        others = sorted;
        is_one = rw p at (sort-perm (heavier fl) us);
        none_heavier =
            All-of_sort (heavier fl) (λ d. heavier fl d e ≡ false) us (rw p (irrefl e, s.0));
      }
    where
      irrefl : (d : Edge) → heavier fl d d ≡ false
      irrefl d = elim (Bool-cases (heavier fl d d)) [
        | inl b ↦ (heavier-IsOrder fl laws).asym d d b
        | inr b ↦ b
      ]

  sort-nil : (us : List Edge) → sort (heavier fl) us ≡ [] → us ≡ []
  sort-nil [] h = refl
  sort-nil (d ∷ us) h = absurd (All-of_sort (heavier fl) (λ _. ⊥) (d ∷ us) (rw h tt)).0

  by_weight-Chosen :
      (o : Outcome) (c : Context) (d : Edge) (ds : List Edge) (e : Edge)
      → NonePasses (condition_holds (env_of o c)) (d ∷ ds)
      → ((o.preferred_label ≡ "") ⊎ NonePasses (has_label o.preferred_label) (d ∷ ds))
      → All (λ j. NonePasses (leads_to j) (d ∷ ds)) o.suggested_next_ids
      → by_weight fl (d ∷ ds) ≡ some e
      → Chosen fl o c (d ∷ ds) e
  unfolding by_weight filter_unconditional
  by_weight-Chosen o c d ds e nc nl ns h =
      go (sort (heavier fl) (keep is_unconditional (d ∷ ds))) refl h
    where
      go :
          (us : List Edge)
          → sort (heavier fl) (keep is_unconditional (d ∷ ds)) ≡ us
          → or_try (first us) (some d) ≡ some e
          → Chosen fl o c (d ∷ ds) e
      go [] p q =
          Chosen.by_declaration_order nc nl ns
            (NonePasses-of_keep is_unconditional (d ∷ ds) (sort-nil _ p)) ds
            (ap (λ x. x ∷ ds) (some_eq d e q))
      go (x ∷ us) p q =
          Chosen.by_highest_weight nc nl ns
            (IsHeaviest-of_sort (d ∷ ds) us e (p ∙ ap (λ y. y ∷ us) (some_eq x e q)))

  select_from-Chosen :
      (o : Outcome) (c : Context) (es : List Edge) (e : Edge)
      → select_from fl o c es ≡ some e
      → Chosen fl o c es e
  unfolding select_from
  select_from-Chosen o c [] e h = cc
  select_from-Chosen o c (d ∷ ds) e h =
      let holds = condition_holds (env_of o c) in
      let es = d ∷ ds in
      elim (Option-cases (find? holds es)) [
        | inr (x, p) ↦
            Chosen.by_true_condition
              (find?-IsFirst holds es e (p ∙ ap some (some_eq x e (rw (p, select_from) at h))))
        | inl nc ↦ elim (Option-cases (by_label o.preferred_label es)) [
          | inr (x, p) ↦
              let r =
                by_label-some o.preferred_label es e
                  (p ∙ ap some (some_eq x e (rw (nc, p, select_from) at h))) in
              Chosen.by_preferred_label (find?-NonePasses holds es nc) r.0 r.1
          | inl nl ↦ elim (Option-cases (by_suggestion o.suggested_next_ids es)) [
            | inr (x, p) ↦
                Chosen.by_suggested_id (find?-NonePasses holds es nc)
                  (by_label-none o.preferred_label es nl)
                  (by_suggestion-IsSuggested o.suggested_next_ids es e
                    (p ∙ ap some (some_eq x e (rw (nc, nl, p, select_from) at h))))
            | inl ns ↦
                by_weight-Chosen o c d ds e (find?-NonePasses holds es nc)
                  (by_label-none o.preferred_label es nl)
                  (by_suggestion-none o.suggested_next_ids es ns)
                  (rw (nc, nl, ns, select_from) at h)
          ]
        ]
      ]

  -- The selected edge is the one that the five steps call for, on weights that are numbers: the
  -- first whose condition holds; with none, the first with the preferred label, if there is one;
  -- then the first that leads to the first suggested node that an edge leads to; then an
  -- unconditional edge that no other outweighs; then, where every edge has a condition and none
  -- holds, the first edge.
  pub select-Chosen :
      (g : Graph) (id : String) (o : Outcome) (c : Context) (e : Edge)
      → select fl g id o c ≡ some e
      → Chosen fl o c (out_edges g id) e
  unfolding select
  select-Chosen g id o c e h = select_from-Chosen o c (out_edges g id) e h

or_try-ne-none : (a b : Option Edge) → b ≢ none → or_try a b ≢ none
or_try-ne-none none b h = h
or_try-ne-none (some e) b h = λ p. cc

select_from-ne-none :
    (fl : Floats) (o : Outcome) (c : Context) (d : Edge) (ds : List Edge)
    → select_from fl o c (d ∷ ds) ≢ none
unfolding select_from by_weight
select_from-ne-none fl o c d ds = or_try-ne-none (find? (condition_holds (env_of o c)) (d ∷ ds)) _ (
    or_try-ne-none (by_label o.preferred_label (d ∷ ds)) _ (
      or_try-ne-none (by_suggestion o.suggested_next_ids (d ∷ ds)) _ (
        or_try-ne-none (first (sort (heavier fl) (filter_unconditional (d ∷ ds)))) (some d)
          (λ p. cc))))

-- The selector finds an edge for every node that has one, also where every edge has a condition
-- and none of them holds.
pub select-none_iff :
    (fl : Floats) (g : Graph) (id : String) (o : Outcome) (c : Context)
    → (select fl g id o c ≡ none) ↔ (out_edges g id ≡ [])
unfolding select
select-none_iff fl g id o c = go (out_edges g id)
  where
    go : (es : List Edge) → (select_from fl o c es ≡ none) ↔ (es ≡ [])
    go [] = (λ _. refl, λ _. unfold select_from in refl)
    go (d ∷ ds) = (λ p. absurd (select_from-ne-none fl o c d ds p), λ p. cc)
