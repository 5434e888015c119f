-- ===== src/Validate/Reach/Unseen.antt =====
-- internal/attractor/validate/rules.go: paths, marks, and how many edges lead to an unmarked node.
use dfgo.Prelude.{
  ℕ, suc, ◌≤◌, ◌<◌, String, Bool, true, false, ◌||◌, List, [], ◌∷◌, str_eq, eq_iff, eq_refl, length,
  if◌then◌else◌, ◌≡◌, refl, inl, inr, Bool-cases, arith, All,
}
use mathlib.Core.Path.{subst}
use dfgo.Model.Graph.{Edge, Graph, successors}
use dfgo.Validate.Reach.{marked}

-- A path of edges leads from the first node to the second.
pub data Reaches (g : Graph) (a : String) : String → Type 0 where
  here : Reaches g a a
  there : (b c : String) → Reaches g a b → marked (successors g b) c ≡ true → Reaches g a c

abbrev pub In : List String → String → Type 0
In seen v = marked seen v ≡ true

-- how many edges lead to a node that is not marked
pub unseen : List Edge → List String → ℕ
unseen [] seen = 0
unseen (e ∷ es) seen = let rest = unseen es seen in if marked seen e.to then rest else suc rest

abbrev pub targets : List Edge → String → Bool
targets [] c = false
targets (e ∷ es) c = str_eq e.to c || targets es c

pub unseen-length : (es : List Edge) (seen : List String) → unseen es seen ≤ length es
unfolding unseen
unseen-length [] seen = omega arith
unseen-length (e ∷ es) seen = ground (arith, unseen-length es seen)

abbrev pub Sub : List String → List String → Type 0
Sub a b = (v : String) → In a v → In b v

pub unseen_mono : (es : List Edge) (a b : List String) → Sub a b → unseen es b ≤ unseen es a
unfolding unseen
unseen_mono [] a b h = omega arith
unseen_mono (e ∷ es) a b h = ground (arith, unseen_mono es a b h, h e.to)

pub Sub-cons : (c : String) (seen : List String) → Sub seen (c ∷ seen)
unfolding marked
Sub-cons c seen v h = ground (arith, h)

pub In-head : (c : String) (seen : List String) → In (c ∷ seen) c
unfolding marked
In-head c seen = simp eq_refl

pub In-tail : (c v : String) (seen : List String) → In (c ∷ seen) v → str_eq c v ≡ false → In seen v
unfolding marked
In-tail c v seen h k = ground (arith, h, k)

pub marked-nil : (v : String) → marked [] v ≡ false
unfolding marked
marked-nil v = refl

pub In-nil : (v : String) → In [] v → ⊥
unfolding marked
In-nil v h = cc

pub All-at :
    (p : String → Bool) (cs : List String) (c : String)
    → All (λ d. p d ≡ true) cs
    → In cs c
    → p c ≡ true
unfolding marked
All-at p [] c h k = cc
All-at p (d ∷ cs) c h k = elim (Bool-cases (str_eq d c)) [
  | inl e ↦ subst (λ x. p x ≡ true) ((eq_iff d c).0 e) h.0
  | inr e ↦ All-at p cs c h.1 (In-tail d c cs k e)
]

-- Marking the target of an edge leaves one less.
pub unseen-less :
    (es : List Edge) (seen : List String) (c : String)
    → targets es c ≡ true
    → marked seen c ≡ false
    → unseen es (c ∷ seen) < unseen es seen
unfolding unseen marked
unseen-less [] seen c h k = cc
unseen-less (e ∷ es) seen c h k = elim (Bool-cases (str_eq e.to c)) [
  | inl b ↦ ground (
    arith,
    b,
    k,
    (eq_iff e.to c).0 b,
    unseen_mono es seen (c ∷ seen) (Sub-cons c seen),
    eq_refl c,
  )
  | inr b ↦ ground (arith, b, k, h, unseen-less es seen c, (eq_iff e.to c).1, (eq_iff c e.to).0)
]
