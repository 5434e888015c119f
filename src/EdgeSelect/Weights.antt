-- ===== src/EdgeSelect/Weights.antt =====
-- internal/attractor/edge/selector.go: the order of edges by weight.
use dfgo.Prelude.{ℕ, ltb, Bool, true, false, if◌then◌else◌, ◌≡◌, arith, Bool-cases, inl, inr}
use dfgo.Prelude.Sort.{IsOrder}
use dfgo.Model.Attrs.{Floats}
use dfgo.EdgeSelect.{heavier}

-- The weights are ordered as floats other than NaN are.
pub record FloatLaws (fl : Floats) : Type 0 where
  pub ne_refl : (a : fl.Float) → fl.ne a a ≡ false
  pub eq_of_ne : (a b : fl.Float) → fl.ne a b ≡ false → a ≡ b
  pub gt_asym : (a b : fl.Float) → fl.gt a b ≡ true → fl.gt b a ≡ false
  pub gt_neg_trans : (a b c : fl.Float) → fl.gt a b ≡ false → fl.gt b c ≡ false → fl.gt a c ≡ false
  pub gt_total : (a b : fl.Float) → fl.ne a b ≡ true → fl.gt a b ≡ false → fl.gt b a ≡ true

module _ (fl : Floats) (laws : FloatLaws fl) where
  abbrev rank : fl.Float → ℕ → fl.Float → ℕ → Bool
  rank x m y n = if fl.ne x y then fl.gt x y else ltb m n

  gt_irrefl : (x : fl.Float) → fl.gt x x ≡ false
  gt_irrefl x = elim (Bool-cases (fl.gt x x)) [ inl b ↦ laws.gt_asym x x b | inr b ↦ b ]

  rank_gt : (x y : fl.Float) (m n : ℕ) → rank x m y n ≡ false → fl.gt x y ≡ false
  rank_gt x y m n h = elim (Bool-cases (fl.ne x y)) [
    | inl b ↦ ground (arith, b, h)
    | inr b ↦ rw (laws.eq_of_ne x y b) (gt_irrefl y)
  ]

  ne_sym : (x y : fl.Float) → fl.ne x y ≡ false → fl.ne y x ≡ false
  ne_sym x y h = rw (laws.eq_of_ne x y h) (laws.ne_refl y)

  -- Two ranks in a row that are not below leave equal weights only if all three are equal.
  ne_between :
      (x y z : fl.Float)
      → fl.gt x y ≡ false
      → fl.gt y z ≡ false
      → fl.ne x z ≡ false
      → (fl.ne x y ≡ false) × (fl.ne y z ≡ false)
  ne_between x y z p q e = elim (Bool-cases (fl.ne x y)) [
    | inl b ↦ let zy : fl.gt y z ≡ true = rw (← laws.eq_of_ne x z e) (laws.gt_total x y b p) in cc
    | inr b ↦ (b, rw (← laws.eq_of_ne x y b) e)
  ]

  rank_neg_trans :
      (x y z : fl.Float) (m n k : ℕ)
      → rank x m y n ≡ false
      → rank y n z k ≡ false
      → rank x m z k ≡ false
  rank_neg_trans x y z m n k h j =
      let p = rank_gt x y m n h in
      let q = rank_gt y z n k j in
      elim (Bool-cases (fl.ne x z)) [
        | inl b ↦ rw b (laws.gt_neg_trans x y z p q)
        | inr b ↦ let (c, d) = ne_between x y z p q b in ground (arith, b, c, d, h, j)
      ]

  rank_asym : (x y : fl.Float) (m n : ℕ) → rank x m y n ≡ true → rank y n x m ≡ false
  rank_asym x y m n h = elim (Bool-cases (fl.ne x y)) [
    | inl b ↦ elim (Bool-cases (fl.ne y x)) [
      | inl c ↦ rw c (laws.gt_asym x y (ground (arith, b, h)))
      | inr c ↦ cc (b, ne_sym y x c)
    ]
    | inr b ↦ ground (arith, b, h, ne_sym x y b)
  ]

  pub heavier-IsOrder : IsOrder (heavier fl)
  unfolding heavier
  heavier-IsOrder = record {
    asym = λ a b h. rank_asym _ _ a.order b.order h;
    neg_trans = λ a b c h j. rank_neg_trans _ _ _ a.order b.order c.order h j;
  }
