-- ===== src/Handlers/Join.antt =====
-- internal/attractor/handler/parallel.go: how the outcomes of the branches are joined.
pub mod Policies
use dfgo.Prelude.{
  ℕ, ◌+◌, ◌/◌, String, Bool, true, false, not, ◌==◌, ltb, if◌then◌else◌, List, [], ◌∷◌, ◌++◌,
  Option, some, none, str_eq, length,
}
use dfgo.Prelude.Dict.{Dict, get, put, remove}
use dfgo.Prelude.Text.{ℤ, pos, negsuc, lt_int, append, itoa}
use dfgo.Runtime.Outcome.{Outcome, success_outcome, fail_outcome, transient, is_success}

-- `JoinPolicy` is a text: a node may have any.
abbrev pub wait_all : String
wait_all = "wait_all"

abbrev pub first_success : String
first_success = "first_success"

abbrev pub k_of_n : String
k_of_n = "k_of_n"

abbrev pub quorum : String
quorum = "quorum"

pub record Counts : Type 0 where
  pub successes : ℕ
  pub failures : ℕ
  pub reasons : List String

abbrev failed_with : Counts → String → Counts
failed_with c reason = record c { failures = c.failures + 1; reasons = c.reasons ++ reason ∷ [] }

abbrev failed_silently : Counts → Counts
failed_silently c = record c { failures = c.failures + 1 }

abbrev succeeded : Counts → Counts
succeeded c = record c { successes = c.successes + 1 }

abbrev pub count_one : Dict String → Counts → String → Outcome → Counts
count_one errors c id o = elim (get errors id) [
  | some e ↦ failed_with c (append id (append ": error: " e))
  | none ↦
      if is_success o
      then succeeded c
      else if str_eq o.failure_reason ""
      then failed_silently c
      else failed_with c (append id (append ": " o.failure_reason))
]

-- Go ranges over the branches in any order.
unfoldable pub count_from : Dict String → Counts → Dict Outcome → Counts
count_from errors c [] = c
count_from errors c ((id, o) ∷ os) = count_from errors (count_one errors c id o) os

abbrev join_texts : List String → String
join_texts [] = ""
join_texts (s ∷ []) = s
join_texts (s ∷ t ∷ ts) = append s (append "; " (join_texts (t ∷ ts)))

abbrev of_total : ℕ → ℕ → String
of_total n total = append (itoa n) (append "/" (itoa total))

abbrev show_int : ℤ → String
show_int (pos n) = itoa n
show_int (negsuc n) = append "-" (itoa (n + 1))

abbrev failing : String → Outcome
failing reason = fail_outcome reason transient

abbrev pub decide_join : Counts → ℕ → String → ℤ → Outcome
decide_join c total policy k =
    if str_eq policy wait_all
    then (if c.failures == 0
        then success_outcome
        else failing (
            append (of_total c.failures total)
              (append " branches failed: " (join_texts c.reasons))))
    else if str_eq policy first_success
    then (if ltb 0 c.successes then success_outcome else failing "no branch succeeded")
    else if str_eq policy k_of_n
    then (if not (lt_int c.successes k)
        then success_outcome
        else failing (
            append "only " (
              append (of_total c.successes total)
                (append " branches succeeded (need " (append (show_int k) ")")))))
    else if str_eq policy quorum
    then (if ltb (total / 2) c.successes
        then success_outcome
        else failing (append "no quorum: " (append (of_total c.successes total) " succeeded")))
    else success_outcome

unfoldable pub join_parallel_results : Dict Outcome → Dict String → String → ℤ → Outcome
join_parallel_results outcomes errors policy k =
    decide_join (count_from errors (record { successes = 0; failures = 0; reasons = [] }) outcomes)
      (length outcomes) policy k

-- The filter of the error policy `ignore`.
unfoldable pub drop_failed : Dict String → Dict Outcome → Dict Outcome
drop_failed errors [] = []
drop_failed errors ((id, o) ∷ os) =
    let rest = drop_failed errors os in
    elim (get errors id) [ some e ↦ rest | none ↦ if is_success o then (id, o) ∷ rest else rest ]

abbrev pub if_any : Dict Outcome → Outcome → Outcome
if_any [] o = fail_outcome "all branches failed (error_policy=ignore)" transient
if_any (b ∷ bs) o = o

-- What `Execute` returns once the branches have ended; the errors of the branches that are kept
-- are none.
unfoldable pub join_branches : Dict Outcome → Dict String → String → String → ℤ → Outcome
join_branches outcomes errors error_policy policy k =
    if str_eq error_policy "ignore"
    then if_any (drop_failed errors outcomes)
        (join_parallel_results (drop_failed errors outcomes) errors policy k)
    else join_parallel_results outcomes errors policy k
