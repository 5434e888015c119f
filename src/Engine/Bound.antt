-- ===== src/Engine/Bound.antt =====
-- internal/attractor/engine.go: the counters of retries and their limits.
pub mod Counted
pub mod Back
use dfgo.Prelude.{
  ℕ, suc, String, true, if◌then◌else◌, List, Option, some, str_eq, eq_iff, ◌≡◌, ◌≤◌, Bool-cases,
  inl, inr, arith,
}
use dfgo.Prelude.Dict.{Dict, put, get-put}
use dfgo.Prelude.Text.{ℤ, pos, negsuc, lt_int}
use dfgo.Model.Graph.{Node, Graph, node_by_id}
use dfgo.Model.Attrs.{Floats}
use dfgo.Runtime.Checkpoint.{VisitEntry}
use dfgo.Engine.State.{RunError, World, Registry, State, counter, count_of}
use dfgo.Engine.Step.{retry_limit, steps}
use dfgo.Engine.Step.Changes.{Kept, IsKept}
use dfgo.Engine.Step.Keeps.{steps-Holds}

-- A negative limit allows no retry.
abbrev pub allowed : ℤ → ℕ
allowed (pos n) = n
allowed (negsuc n) = 0

-- No node of the graph has a counter above what its limit allows.
abbrev pub IsBounded : Graph → {w : World} → State w → Type 0
IsBounded g s =
    (id : String) (n : Node) → node_by_id g id ≡ some n → counter s id ≤ allowed (retry_limit g n)

abbrev pub Bounded : Graph → Kept
Bounded g c d log =
    (id : String) (n : Node) → node_by_id g id ≡ some n → count_of c id ≤ allowed (retry_limit g n)

lt_int-allowed : (k : ℕ) (z : ℤ) → lt_int k z ≡ true → suc k ≤ allowed z
lt_int-allowed k (pos n) h = ground (arith, h)
lt_int-allowed k (negsuc n) h = cc

same_node :
    (g : Graph) (id : String) (m n : Node)
    → node_by_id g id ≡ some m
    → node_by_id g id ≡ some n
    → m ≡ n
same_node g id m n p q = cc

pub count_of-put :
    (c : Dict ℕ) (id j : String) (k : ℕ)
    → count_of (put c id k) j ≡ (if str_eq id j then k else count_of c j)
count_of-put c id j k = ground (arith, get-put c id j k)

counts-Bounded :
    (g : Graph) (c : Dict ℕ) (id : String) (n : Node)
    → node_by_id g id ≡ some n
    → lt_int (count_of c id) (retry_limit g n) ≡ true
    → ((j : String) (m : Node) → node_by_id g j ≡ some m → count_of c j ≤ allowed (retry_limit g m))
    → (j : String) (m : Node) → node_by_id g j ≡ some m
    → count_of (put c id (suc (count_of c id))) j ≤ allowed (retry_limit g m)
counts-Bounded g c id n there left h j m here = elim (Bool-cases (str_eq id j)) [
  | inl e ↦
      let same : id ≡ j = (eq_iff id j).0 e in
      let one : n ≡ m = same_node g j n m (rw (← same) there) here in
      rw (count_of-put c id j (suc (count_of c id)), e, ← one)
        (lt_int-allowed (count_of c id) (retry_limit g n) left)
  | inr e ↦ rw (count_of-put c id j (suc (count_of c id)), e) (h j m here)
]

pub Bounded-IsKept : (g : Graph) → IsKept g (Bounded g)
Bounded-IsKept g = record {
  visits = λ c d log v h. h;
  completes = λ c d log id h. h;
  counts = λ c d log id n there left h. counts-Bounded g c id n there left h;
}
