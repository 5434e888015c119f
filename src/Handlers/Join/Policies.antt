-- ===== src/Handlers/Join/Policies.antt =====
-- internal/attractor/handler/parallel.go: when a join succeeds.
use dfgo.Prelude.{
  ℕ, ◌+◌, ◌*◌, ◌<◌, ◌≤◌, String, Bool, true, false, if◌then◌else◌, [], ◌∷◌, some, none, str_eq,
  length, keep, ◌≡◌, ◌↔◌, refl, Bool-cases, inl, inr, Option-cases, arith,
}
use dfgo.Prelude.Dict.{Dict, get}
use dfgo.Prelude.Text.{pos}
use dfgo.Runtime.Outcome.{Outcome, is_success}
use dfgo.Handlers.Join.{
  Counts, count_one, count_from, decide_join, join_parallel_results, wait_all, first_success,
  k_of_n, quorum,
}

-- A branch that ended without an error and with success.
abbrev pub is_good : Dict String → (String × Outcome) → Bool
is_good errors (id, o) = elim (get errors id) [ some e ↦ false | none ↦ is_success o ]

abbrev pub good : Dict String → Dict Outcome → ℕ
good errors os = length (keep (is_good errors) os)

abbrev none_yet : Counts
none_yet = record { successes = 0; failures = 0; reasons = [] }

count_one-is_good :
    (errors : Dict String) (c : Counts) (id : String) (o : Outcome)
    → ((count_one errors c id o).successes
        ≡ (if is_good errors (id, o) then c.successes + 1 else c.successes))
      × ((count_one errors c id o).failures
          ≡ (if is_good errors (id, o) then c.failures else c.failures + 1))
count_one-is_good errors c id o = elim (Option-cases (get errors id)) [
  | inr (e, p) ↦ rw (p, count_one, is_good) (refl, refl)
  | inl p ↦ elim (Bool-cases (is_success o)) [
    | inl b ↦ rw (p, b, count_one, is_good) (refl, refl)
    | inr b ↦ elim (Bool-cases (str_eq o.failure_reason "")) [
      | inl d ↦ rw (p, b, d, count_one, is_good) (refl, refl)
      | inr d ↦ rw (p, b, d, count_one, is_good) (refl, refl)
    ]
  ]
]

count_from-good :
    (errors : Dict String) (os : Dict Outcome) (c : Counts)
    → ((count_from errors c os).successes ≡ c.successes + good errors os)
      × ((count_from errors c os).failures + good errors os ≡ c.failures + length os)
unfolding count_from
count_from-good errors [] c = (omega arith, omega arith)
count_from-good errors ((id, o) ∷ os) c =
    let one = count_one-is_good errors c id o in
    let rest = count_from-good errors os (count_one errors c id o) in
    elim (Bool-cases (is_good errors (id, o))) [
      | inl b ↦ (ground (arith, one, rest, b), ground (arith, one, rest, b))
      | inr b ↦ (ground (arith, one, rest, b), ground (arith, one, rest, b))
    ]

abbrev pub Succeeds : Outcome → Type 0
Succeeds o = is_success o ≡ true

module _ (c : Counts) (total k : ℕ) where
  decide_wait_all : Succeeds (decide_join c total wait_all (pos k)) ↔ (c.failures ≡ 0)
  decide_wait_all = (λ h. ground (arith, h), λ h. ground (arith, h))

  decide_first_success : Succeeds (decide_join c total first_success (pos k)) ↔ (0 < c.successes)
  decide_first_success = (λ h. ground (arith, h), λ h. ground (arith, h))

  decide_k_of_n : Succeeds (decide_join c total k_of_n (pos k)) ↔ (k ≤ c.successes)
  decide_k_of_n = (λ h. ground (arith, h), λ h. ground (arith, h))

  decide_quorum : Succeeds (decide_join c total quorum (pos k)) ↔ (total < 2 * c.successes)
  decide_quorum = (λ h. ground (arith, h), λ h. ground (arith, h))

-- A join succeeds, by its policy: for wait_all if every branch is good, for first_success if one
-- is, for k_of_n with a k that is not negative if k are, for quorum if more than half are. A branch
-- is good that ended without an error and with success.
pub join_parallel_results-Succeeds :
    (os : Dict Outcome) (errors : Dict String) (k : ℕ)
    → (Succeeds (join_parallel_results os errors wait_all (pos k)) ↔ (good errors os ≡ length os))
      × (Succeeds (join_parallel_results os errors first_success (pos k)) ↔ (0 < good errors os))
      × (Succeeds (join_parallel_results os errors k_of_n (pos k)) ↔ (k ≤ good errors os))
      × (Succeeds (join_parallel_results os errors quorum (pos k))
          ↔ (length os < 2 * good errors os))
unfolding join_parallel_results
join_parallel_results-Succeeds os errors k = (
  (
    (λ h. ground (arith, (decide_wait_all c total k).0 h, sums)),
    (λ h. (decide_wait_all c total k).1 (ground (arith, h, sums))),
  ),
  (
    (λ h. ground (arith, (decide_first_success c total k).0 h, sums)),
    (λ h. (decide_first_success c total k).1 (ground (arith, h, sums))),
  ),
  (
    (λ h. ground (arith, (decide_k_of_n c total k).0 h, sums)),
    (λ h. (decide_k_of_n c total k).1 (ground (arith, h, sums))),
  ),
  (
    (λ h. ground (arith, (decide_quorum c total k).0 h, sums)),
    (λ h. (decide_quorum c total k).1 (ground (arith, h, sums))),
  ),
)
  where
    total : ℕ
    total = length os

    c : Counts
    c = count_from errors none_yet os

    sums : (c.successes ≡ 0 + good errors os) × (c.failures + good errors os ≡ 0 + length os)
    sums = count_from-good errors os none_yet
