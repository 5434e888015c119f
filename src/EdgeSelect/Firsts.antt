-- ===== src/EdgeSelect/Firsts.antt =====
-- internal/attractor/edge/selector.go: the first edge that passes a test, and the first suggestion.
use dfgo.Prelude.{
  String, Bool, true, false, List, [], ◌∷◌, ◌++◌, none, some, str_eq, find?, ◌≡◌, refl, ap, ◌∙◌,
  arith, Bool-cases, inl, inr, Option-cases, All,
}
use dfgo.Model.Graph.{Edge}
use dfgo.EdgeSelect.{by_suggestion}

-- `e` is the first of `es` that passes the test.
pub record IsFirst (p : Edge → Bool) (e : Edge) (es : List Edge) : Type 0 where
  pub before : List Edge
  pub after : List Edge
  pub splits : es ≡ before ++ e ∷ after
  pub fail_before : All (λ d. p d ≡ false) before
  pub passes : p e ≡ true

abbrev pub NonePasses : (Edge → Bool) → List Edge → Type 0
NonePasses p es = All (λ d. p d ≡ false) es

abbrev pub leads_to : String → Edge → Bool
leads_to id e = str_eq e.to id

-- `e` is where the first suggestion that some edge follows leads.
pub record IsSuggested (e : Edge) (ids : List String) (es : List Edge) : Type 0 where
  pub earlier : List String
  pub id : String
  pub later : List String
  pub splits : ids ≡ earlier ++ id ∷ later
  pub none_earlier : All (λ j. NonePasses (leads_to j) es) earlier
  pub is_first : IsFirst (leads_to id) e es

pub find?-IsFirst :
    (p : Edge → Bool) (es : List Edge) (e : Edge) → find? p es ≡ some e → IsFirst p e es
find?-IsFirst p [] e h = cc
find?-IsFirst p (d ∷ ds) e h = elim (Bool-cases (p d)) [
  | inl b ↦
      let same : d ≡ e = ground (arith, b, h) in
      record {
        before = [];
        after = ds;
        splits = ap (λ x. x ∷ ds) same;
        fail_before = tt;
        passes = rw (← same) b;
      }
  | inr b ↦
      let r = find?-IsFirst p ds e (ground (arith, b, h)) in
      record {
        before = d ∷ r.before;
        after = r.after;
        splits = ap (◌∷◌ d) r.splits;
        fail_before = (b, r.fail_before);
        passes = r.passes;
      }
]

pub find?-NonePasses : (p : Edge → Bool) (es : List Edge) → find? p es ≡ none → NonePasses p es
find?-NonePasses p [] h = tt
find?-NonePasses p (d ∷ ds) h = (ground (arith, h), find?-NonePasses p ds (ground (arith, h)))

pub by_suggestion-IsSuggested :
    (ids : List String) (es : List Edge) (e : Edge)
    → by_suggestion ids es ≡ some e
    → IsSuggested e ids es
unfolding by_suggestion
by_suggestion-IsSuggested [] es e h = cc
by_suggestion-IsSuggested (id ∷ ids) es e h = elim (Option-cases (find? (leads_to id) es)) [
  | inl n ↦
      let r = by_suggestion-IsSuggested ids es e (ground (arith, n, h)) in
      record {
        earlier = id ∷ r.earlier;
        id = r.id;
        later = r.later;
        splits = ap (◌∷◌ id) r.splits;
        none_earlier = (find?-NonePasses (leads_to id) es n, r.none_earlier);
        is_first = r.is_first;
      }
  | inr (d, s) ↦
      let same : d ≡ e = ground (arith, s, h) in
      record {
        earlier = [];
        id = id;
        later = ids;
        splits = refl;
        none_earlier = tt;
        is_first = find?-IsFirst (leads_to id) es e (s ∙ ap some same);
      }
]

pub by_suggestion-none :
    (ids : List String) (es : List Edge)
    → by_suggestion ids es ≡ none
    → All (λ j. NonePasses (leads_to j) es) ids
unfolding by_suggestion
by_suggestion-none [] es h = tt
by_suggestion-none (id ∷ ids) es h = elim (Option-cases (find? (leads_to id) es)) [
  | inl n ↦ (find?-NonePasses (leads_to id) es n, by_suggestion-none ids es (ground (arith, n, h)))
  | inr (d, s) ↦ absurd (ground (arith, s, h))
]
