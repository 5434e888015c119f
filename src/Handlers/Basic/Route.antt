-- ===== src/Handlers/Basic/Route.antt =====
-- internal/attractor/handler/wait_human.go with edge/selector.go: the edge that a human's answer
-- leads to.
use dfgo.Prelude.{
  String, false, str_eq, str_eq-cases, List, [], length, ltb, some, none, find?, get_elem?, ℕ, zero,
  suc, ◌∷◌, ◌≡◌, refl, sym, ap, ◌∙◌, inl, inr, ◌⊎◌, Bool-cases, arith,
}
use mathlib.Core.Path.{subst}
use dfgo.Prelude.Dict.{index}
use dfgo.Prelude.Result.{Result, ok}
use dfgo.Model.Graph.{Node, Edge, Graph, out_edges}
use dfgo.Model.Attrs.{Floats}
use dfgo.Runtime.Context.{Context}
use dfgo.EdgeSelect.{has_label, by_label, condition_holds, env_of, select, select_from}
use dfgo.Handlers.Basic.{Question, Answer, labels, collect_options, question, answered, wait_human}

-- An edge that is found by its label.
abbrev pub Labelled : String → List Edge → Type 0
Labelled t es = (e : Edge) × (find? (has_label t) es ≡ some e) × (index e.attrs "label" ≡ t)

Labelled-cons : (t : String) (e : Edge) (es : List Edge) → Labelled t es → Labelled t (e ∷ es)
Labelled-cons t e es (d, found, same) = elim (str_eq-cases (index e.attrs "label") t) [
  | inl (b, p) ↦ (e, rw (find?, b) refl, p)
  | inr (b, _) ↦ (d, rw (find?, b) found, same)
]

Labelled-head : (e : Edge) (es : List Edge) → Labelled (index e.attrs "label") (e ∷ es)
Labelled-head e es = elim (str_eq-cases (index e.attrs "label") (index e.attrs "label")) [
  | inl (b, p) ↦ (e, rw (find?, b) refl, p)
  | inr (b, n) ↦ absurd (n refl)
]

get_elem?_cons :
    (x t : String) (xs : List String) (i : ℕ)
    → get_elem? (x ∷ xs) i ≡ some t
    → (x ≡ t) ⊎ ((j : ℕ) × (get_elem? xs j ≡ some t))
get_elem?_cons x t xs zero h = inl (ground (arith, h))
get_elem?_cons x t xs (suc i) h = inr (i, h)

labels-Labelled :
    (es : List Edge) (i : ℕ) (t : String)
    → get_elem? (labels es) i ≡ some t
    → Labelled t es × (str_eq t "" ≡ false)
labels-Labelled [] i t h = cc
labels-Labelled (e ∷ es) i t h = elim (Bool-cases (str_eq (index e.attrs "label") "")) [
  | inl b ↦
      let (found, named) = labels-Labelled es i t (rw (labels, b) at h) in
      (Labelled-cons t e es found, named)
  | inr b ↦ elim (get_elem?_cons _ t (labels es) i (rw (labels, b) at h)) [
    | inl p ↦
        (subst (λ x. Labelled x (e ∷ es)) p (Labelled-head e es), ap (λ x. str_eq x "") (sym p) ∙ b)
    | inr (j, q) ↦
        let (found, named) = labels-Labelled es j t q in (Labelled-cons t e es found, named)
  ]
]

-- what is offered stands among the labels
offered-labels :
    (n : Node) (g : Graph) (i : ℕ) (t : String)
    → get_elem? (collect_options n g) i ≡ some t
    → get_elem? (labels (out_edges g n.id)) i ≡ some t
unfolding collect_options
offered-labels n g i t h = elim (Bool-cases (ltb (length (labels (out_edges g n.id))) 2)) [
  | inl b ↦ cc (rw (b, collect_options) at h)
  | inr b ↦ rw (b, collect_options) at h
]

-- the second step of the selector, where the first finds nothing
select_from_label :
    (fl : Floats) (n : Node) (a : Answer) (ctx : Context) (es : List Edge)
    → Labelled a.text es
    → str_eq a.text "" ≡ false
    → find? (condition_holds (env_of (answered n (ok a)) ctx)) es ≡ none
    → (e : Edge) × (select_from fl (answered n (ok a)) ctx es ≡ some e)
      × (index e.attrs "label" ≡ a.text)
unfolding select_from by_label
select_from_label fl n a ctx [] (e, found, same) named none_holds = cc
select_from_label fl n a ctx (d ∷ ds) (e, found, same) named none_holds =
    (e, rw (select_from, none_holds, named, found) refl, same)

-- The human's gate and the selector fit together. Where the gate offers options, the interviewer
-- answers with one of them and no condition of an edge holds, the outcome leads the engine to an
-- edge with the answer as its label, whatever the edges weigh.
pub wait_human-select :
    (fl : Floats) {W : Type 0} (ask : Question → W → Result String Answer × W) (n : Node)
    (g : Graph) (ctx : Context) (a : Answer) (i : ℕ) (w v : W)
    → ask (question n g) w ≡ (ok a, v)
    → get_elem? (collect_options n g) i ≡ some a.text
    → let o = (wait_human ask n g w).0 in
      find? (condition_holds (env_of o ctx)) (out_edges g n.id) ≡ none
      → (e : Edge) × (select fl g n.id o ctx ≡ some e) × (index e.attrs "label" ≡ a.text)
unfolding wait_human collect_options select
wait_human-select fl ask n g ctx a i w v asked offered =
    rw (wait_human, select, asked)
      (let (found, named) =
          labels-Labelled (out_edges g n.id) i a.text (offered-labels n g i a.text offered) in
        select_from_label fl n a ctx (out_edges g n.id) found named)
