-- ===== src/Prelude/Sort.antt =====
-- Go's `sort.Slice` by a test `less`, as insertion sort. Where `less` leaves two elements in
-- either order, `sort.Slice` promises nothing; the callers' tests are total on what they sort.
use mathlib.Core.Bool.{Bool, true, false}
use mathlib.Core.List.{List, [], ◌∷◌, Perm}
use mathlib.Core.List.Perm
use mathlib.Core.Path.{◌≡◌, refl}
use dfgo.Prelude.Tests.{if◌then◌else◌, Bool-cases}
use dfgo.Prelude.Lists.{All, All-mono}
use mathlib.Core.Logic.{inl, inr}

module _ {ℓ} {A : Type ℓ} (less : A → A → Bool) where
  unfoldable pub insert : A → List A → List A
  insert x [] = x ∷ []
  insert x (y ∷ ys) = let rest = insert x ys in if less y x then y ∷ rest else x ∷ y ∷ ys

  unfoldable pub sort : List A → List A
  unfolding insert
  sort [] = []
  sort (x ∷ xs) = insert x (sort xs)

  insert-perm : (x : A) (ys : List A) → Perm (insert x ys) (x ∷ ys)
  unfolding insert
  insert-perm x [] = Perm.refl (x ∷ [])
  insert-perm x (y ∷ ys) = elim (Bool-cases (less y x)) [
    | inl b ↦ rw b (Perm.trans (Perm.cons y (insert-perm x ys)) (Perm.swap x y ys))
    | inr b ↦ rw b (Perm.refl (x ∷ y ∷ ys))
  ]

  pub sort-perm : (xs : List A) → Perm (sort xs) xs
  unfolding sort
  sort-perm [] = Perm.refl []
  sort-perm (x ∷ xs) = Perm.trans (insert-perm x (sort xs)) (Perm.cons x (sort-perm xs))

  -- No element is `less` than one before it.
  abbrev pub IsSorted : List A → Type ℓ
  IsSorted [] = Unit
  IsSorted (x ∷ xs) = All (λ y. less y x ≡ false) xs × IsSorted xs

  -- A list in order stays as it is.
  pub sort_of_IsSorted : (xs : List A) → IsSorted xs → sort xs ≡ xs
  unfolding sort
  sort_of_IsSorted [] h = refl
  sort_of_IsSorted (x ∷ []) h = refl
  sort_of_IsSorted (x ∷ y ∷ ys) h = rw (sort_of_IsSorted (y ∷ ys) h.1) (rw h.0.0)

-- `less` orders its arguments, up to elements that it does not tell apart.
pub record IsOrder {ℓ} {A : Type ℓ} (less : A → A → Bool) : Type ℓ where
  pub asym : (a b : A) → less a b ≡ true → less b a ≡ false
  pub neg_trans : (a b c : A) → less a b ≡ false → less b c ≡ false → less a c ≡ false

module _ {ℓ} {A : Type ℓ} (less : A → A → Bool) (o : IsOrder less) where
  All-insert {κ} :
      (P : A → Type κ) (x : A) (ys : List A) → P x → All P ys → All P (insert less x ys)
  unfolding insert
  All-insert P x [] p h = (p, tt)
  All-insert P x (y ∷ ys) p h = elim (Bool-cases (less y x)) [
    | inl b ↦ rw b (h.0, All-insert P x ys p h.1)
    | inr b ↦ rw b (p, h)
  ]

  insert-IsSorted : (x : A) (ys : List A) → IsSorted less ys → IsSorted less (insert less x ys)
  unfolding insert
  insert-IsSorted x [] h = (tt, tt)
  insert-IsSorted x (y ∷ ys) h = elim (Bool-cases (less y x)) [
    | inl b ↦
        rw b (All-insert (λ z. less z y ≡ false) x ys (o.asym y x b) h.0, insert-IsSorted x ys h.1)
    | inr b ↦ rw b ((b, All-mono _ _ (λ z e. o.neg_trans z y x e b) ys h.0), h)
  ]

  pub sort-IsSorted : (xs : List A) → IsSorted less (sort less xs)
  unfolding sort
  sort-IsSorted [] = tt
  sort-IsSorted (x ∷ xs) = insert-IsSorted x (sort less xs) (sort-IsSorted xs)

All-of_insert {ℓ κ} :
    {A : Type ℓ} (less : A → A → Bool) (P : A → Type κ) (x : A) (ys : List A)
    → All P (insert less x ys)
    → P x × All P ys
unfolding insert
All-of_insert less P x [] h = h
All-of_insert less P x (y ∷ ys) h = elim (Bool-cases (less y x)) [
  | inl b ↦
      let k : All P (y ∷ insert less x ys) = rw b at h in
      let rest = All-of_insert less P x ys k.1 in (rest.0, (k.0, rest.1))
  | inr b ↦ rw b at h
]

-- What holds of all of a sorted list holds of all of the list.
pub All-of_sort {ℓ κ} :
    {A : Type ℓ} (less : A → A → Bool) (P : A → Type κ) (xs : List A)
    → All P (sort less xs)
    → All P xs
unfolding sort
All-of_sort less P [] h = tt
All-of_sort less P (x ∷ xs) h =
    let k = All-of_insert less P x (sort less xs) h in (k.0, All-of_sort less P xs k.1)

All-into_insert {ℓ κ} :
    {A : Type ℓ} (less : A → A → Bool) (P : A → Type κ) (x : A) (ys : List A)
    → P x
    → All P ys
    → All P (insert less x ys)
unfolding insert
All-into_insert less P x [] h k = (h, tt)
All-into_insert less P x (y ∷ ys) h k = elim (Bool-cases (less y x)) [
  | inl e ↦ rw (e, insert) (k.0, All-into_insert less P x ys h k.1)
  | inr e ↦ rw (e, insert) (h, k)
]

pub All-sort {ℓ κ} :
    {A : Type ℓ} (less : A → A → Bool) (P : A → Type κ) (xs : List A)
    → All P xs
    → All P (sort less xs)
unfolding sort
All-sort less P [] h = tt
All-sort less P (x ∷ xs) h = All-into_insert less P x (sort less xs) h.0 (All-sort less P xs h.1)
