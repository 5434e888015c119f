-- ===== src/Validate/Rules/Errors.antt =====
-- internal/attractor/validate/rules.go: when each rule finds no error.
use dfgo.Prelude.{
  ℕ, String, Bool, true, false, ◌||◌, List, [], ◌∷◌, ◌++◌, some, none, str_eq, keep, find?, ◌≡◌,
  ◌≢◌, ◌↔◌, ◌⊎◌, inl, inr, refl, arith, All, eq_iff, Bool-cases,
}
use dfgo.Prelude.Result.{ok, Result-cases}
use dfgo.Prelude.Dict.{Dict, index}
use dfgo.Model.Graph.{Node, Edge, Graph, has_shape, node_by_id, out_edges, start_node}
use dfgo.Cond
use dfgo.Style.{parse_stylesheet, Stylesheet}
use dfgo.Validate.Diagnostic.{Diagnostic, has_errors, node_finding, error, incoming}
use dfgo.Validate.Reach.{marked}
use dfgo.Validate.Rules.{
  each, condition_finding, goal_gate_retry_rule, prompt_on_llm_rule, stylesheet_syntax_rule,
  fidelity_valid_rule, retry_target_exists_rule, type_known_rule, count_starts, count_exits,
  count_edges, exit_finding, reach_finding, edge_finding, gate_finding, prompt_finding,
  type_finding, mode_finding, targets_finding, target_finding,
}
use dfgo.Validate.Runner.{run, with_types}

abbrev pub NoError : List Diagnostic → Type 0
NoError ds = has_errors ds ≡ false

has_errors-append : (a b : List Diagnostic) → has_errors (a ++ b) ≡ has_errors a || has_errors b
unfolding has_errors
has_errors-append [] b = refl
has_errors-append (d ∷ a) b = ground (arith, has_errors-append a b)

pub NoError-append : (a b : List Diagnostic) → NoError (a ++ b) → NoError a × NoError b
NoError-append a b h = ground (arith, has_errors-append a b)

pub NoError-of_append : (a b : List Diagnostic) → NoError a → NoError b → NoError (a ++ b)
NoError-of_append a b h k = ground (arith, has_errors-append a b)

module _ {A : Type 0} (f : A → List Diagnostic) where
  pub NoError-each : (xs : List A) → NoError (each f xs) → All (λ x. NoError (f x)) xs
  unfolding each
  NoError-each [] h = tt
  NoError-each (x ∷ xs) h = let p = NoError-append (f x) (each f xs) h in (p.0, NoError-each xs p.1)

  pub NoError-of_each : (xs : List A) → All (λ x. NoError (f x)) xs → NoError (each f xs)
  unfolding each has_errors
  NoError-of_each [] h = refl
  NoError-of_each (x ∷ xs) h = NoError-of_append (f x) (each f xs) h.0 (NoError-of_each xs h.1)

-- The condition of an edge is empty or parses.
abbrev pub HasCondition : Edge → Type 0
HasCondition e =
    (index e.attrs "condition" ≡ "")
    ⊎ ((c : Cond.Expr) × (Cond.parse (index e.attrs "condition") ≡ ok c))

abbrev pub HasStylesheet : Graph → Type 0
HasStylesheet g =
    (index g.attrs "model_stylesheet" ≡ "")
    ⊎ ((ss : Stylesheet) × (parse_stylesheet (index g.attrs "model_stylesheet") ≡ ok ss))

find?-keep :
    (p : Node → Bool) (ns : List Node) (n : Node) (ms : List Node)
    → keep p ns ≡ n ∷ ms
    → find? p ns ≡ some n
find?-keep p [] n ms h = cc
find?-keep p (m ∷ ns) n ms h = elim (Bool-cases (p m)) [
  | inl b ↦ ground (arith, b, h)
  | inr b ↦ ground (arith, b, h, find?-keep p ns n ms)
]

-- the start node of a graph with one
pub start_of_one :
    (g : Graph) (start : Node)
    → keep (has_shape "Mdiamond") g.nodes ≡ start ∷ []
    → start_node g ≡ some start
unfolding start_node
start_of_one g start h = find?-keep (has_shape "Mdiamond") g.nodes start [] h

-- Each rule finds no error exactly if the graph has its property.
pub starts_iff : (ns : List Node) → NoError (count_starts ns) ↔ ((start : Node) × (ns ≡ start ∷ []))
unfolding has_errors
starts_iff [] = (λ h. cc, λ h. cc (h.1))
starts_iff (n ∷ []) = (λ h. (n, refl), λ h. refl)
starts_iff (n ∷ m ∷ ns) = (λ h. cc, λ h. cc (h.1))

pub exits_iff : (ns : List Node) → NoError (count_exits ns) ↔ (ns ≢ [])
unfolding has_errors
exits_iff [] = (λ h. cc, λ h. absurd (h refl))
exits_iff (n ∷ ns) = (λ h p. cc, λ h. refl)

pub incoming_iff :
    (es : List Edge) (id : String) (k : ℕ)
    → NoError (count_edges es (node_finding "start_no_incoming" error id (incoming k))) ↔ (es ≡ [])
unfolding has_errors
incoming_iff [] id k = (λ h. refl, λ h. refl)
incoming_iff (e ∷ es) id k = (λ h. cc, λ h. cc)

pub outgoing_iff : (g : Graph) (n : Node) → NoError (exit_finding g n) ↔ (out_edges g n.id ≡ [])
unfolding has_errors
outgoing_iff g n = (λ h. ground (arith, h), λ h. ground (arith, h))

pub reach_iff :
    (reached : List String) (n : Node)
    → NoError (reach_finding reached n) ↔ (marked reached n.id ≡ true)
unfolding has_errors
reach_iff reached n = (λ h. ground (arith, h), λ h. ground (arith, h))

pub joins_iff :
    (g : Graph) (e : Edge)
    → NoError (edge_finding g e) ↔ ((node_by_id g e.from ≢ none) × (node_by_id g e.to ≢ none))
unfolding has_errors
joins_iff g e = (λ h. ground (arith, h), λ h. ground (arith, h))

pub condition_iff : (e : Edge) → NoError (condition_finding e) ↔ HasCondition e
unfolding has_errors Cond.validate
condition_iff e = elim (Bool-cases (str_eq (index e.attrs "condition") "")) [
  | inl b ↦ (λ h. inl ((eq_iff (index e.attrs "condition") "").0 b), λ h. rw b)
  | inr b ↦ elim (Result-cases (Cond.parse (index e.attrs "condition"))) [
    | inl (c, p) ↦ (λ h. inr (c, p), λ h. rw (b, p, Cond.validate))
    | inr (x, p) ↦ (
      λ h. absurd (cc (rw (b, p, Cond.validate) at h)),
      λ h. elim h [
        | inl empty ↦ cc (b, (eq_iff (index e.attrs "condition") "").1 empty)
        | inr (c, q) ↦ cc
      ],
    )
  ]
]

pub stylesheet_iff : (g : Graph) → NoError (stylesheet_syntax_rule g) ↔ HasStylesheet g
unfolding has_errors stylesheet_syntax_rule
stylesheet_iff g = elim (Bool-cases (str_eq src "")) [
  | inl b ↦ (λ h. inl ((eq_iff src "").0 b), λ h. rw (b, stylesheet_syntax_rule))
  | inr b ↦ elim (Result-cases (parse_stylesheet src)) [
    | inl (ss, p) ↦ (λ h. inr (ss, p), λ h. rw (b, p, stylesheet_syntax_rule))
    | inr (x, p) ↦ (
      λ h. absurd (cc (rw (b, p, stylesheet_syntax_rule) at h)),
      λ h. elim h [ inl empty ↦ cc (b, (eq_iff src "").1 empty) | inr (ss, q) ↦ cc ],
    )
  ]
]
  where
    src : String
    src = index g.attrs "model_stylesheet"

-- The rules of severity warning never find an error.
module _ {A : Type 0} (f : A → List Diagnostic) where
  NoError-of_all : ((x : A) → NoError (f x)) → (xs : List A) → NoError (each f xs)
  NoError-of_all h xs = NoError-of_each f xs (every xs)
    where
      every : (ys : List A) → All (λ x. NoError (f x)) ys
      every [] = tt
      every (y ∷ ys) = (h y, every ys)

pub gate_NoError : (g : Graph) → NoError (goal_gate_retry_rule g)
unfolding goal_gate_retry_rule has_errors
gate_NoError g = NoError-of_all gate_finding (λ n. ground arith) g.nodes

pub prompt_NoError : (g : Graph) → NoError (prompt_on_llm_rule g)
unfolding prompt_on_llm_rule has_errors
prompt_NoError g = NoError-of_all prompt_finding (λ n. ground arith) g.nodes

mode_finding-NoError : (id : String) (attrs : Dict String) → NoError (mode_finding id attrs)
unfolding has_errors
mode_finding-NoError id attrs = ground arith

pub fidelity_NoError : (g : Graph) → NoError (fidelity_valid_rule g)
unfolding fidelity_valid_rule
fidelity_NoError g =
    NoError-of_append (mode_finding "" g.attrs) _ (mode_finding-NoError "" g.attrs) (
      NoError-of_append _ _
        (NoError-of_all (λ (n : Node). mode_finding n.id n.attrs)
          (λ n. mode_finding-NoError n.id n.attrs) g.nodes)
        (NoError-of_all (λ (e : Edge). mode_finding "" e.attrs)
          (λ e. mode_finding-NoError "" e.attrs) g.edges))

target_finding-NoError : (g : Graph) (n : Node) (attr : String) → NoError (target_finding g n attr)
unfolding has_errors
target_finding-NoError g n attr = ground arith

pub targets_NoError : (g : Graph) → NoError (retry_target_exists_rule g)
unfolding retry_target_exists_rule
targets_NoError g =
    NoError-of_all (targets_finding g)
      (λ n.
        NoError-of_append _ _ (target_finding-NoError g n "retry_target")
          (target_finding-NoError g n "fallback_retry_target"))
      g.nodes

pub types_NoError : (known : List String) (g : Graph) → NoError (run (with_types known) g)
unfolding run type_known_rule has_errors
types_NoError [] g = refl
types_NoError (t ∷ ts) g =
    NoError-of_append (each (type_finding (t ∷ ts)) g.nodes) []
      (NoError-of_all (type_finding (t ∷ ts)) (λ n. ground arith) g.nodes) refl
