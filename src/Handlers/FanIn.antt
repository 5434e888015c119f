-- ===== src/Handlers/FanIn.antt =====
-- internal/attractor/handler/fan_in.go: the ranking of the branches' outcomes. encoding/json is a
-- parameter in both directions.
pub mod Rank
pub mod Best
use dfgo.Prelude.{
  ℕ, String, code, Bool, true, false, not, ◌&&◌, ◌||◌, ◌==◌, ltb, if◌then◌else◌, List, [], ◌∷◌,
  Option, some, none, str_eq,
}
use dfgo.Prelude.Dict.{Dict, get}
use dfgo.Prelude.Sort.{sort}
use dfgo.Prelude.Text.{append}
use dfgo.Runtime.Outcome.{
  StageStatus, success, partial_success, retry, fail, other, Outcome, success_outcome, fail_outcome,
  transient, deterministic, is_success,
}
use dfgo.Runtime.Context.{Context, lookup, store}

-- lower is better
abbrev pub status_priority : StageStatus → ℕ
status_priority success = 0
status_priority partial_success = 1
status_priority retry = 2
status_priority fail = 3
status_priority (other s) = 4

-- `<` on strings: the order of UTF-8 texts by bytes is that of their characters
unfoldable pub text_less : String → String → Bool
text_less String.[] String.[] = false
text_less String.[] (String.◌∷◌ d t) = true
text_less (String.◌∷◌ c s) String.[] = false
text_less (String.◌∷◌ c s) (String.◌∷◌ d t) =
    let rest = text_less s t in if ltb (code c) (code d) then true else code c == code d && rest

abbrev pub Ranked : Type 0
Ranked = String × Outcome

unfoldable pub better : Ranked → Ranked → Bool
better (i, a) (j, b) =
    if not (status_priority a.status == status_priority b.status)
    then ltb (status_priority a.status) (status_priority b.status)
    else text_less i j

abbrev pub any_success : List Ranked → Bool
any_success [] = false
any_success ((i, o) ∷ rs) = is_success o || any_success rs

abbrev pub verdict : List Ranked → Outcome
verdict rs =
    if any_success rs
    then success_outcome
    else fail_outcome "fan_in: all candidates failed" transient

module _ (marshal : Outcome → String) where
  abbrev pub conclude : Context → List Ranked → Outcome × Context
  conclude c [] = (success_outcome, c)
  conclude c ((id, o) ∷ rs) = (
    verdict ((id, o) ∷ rs),
    store (store c "parallel.fan_in.best_id" id) "parallel.fan_in.best_outcome" (marshal o),
  )

  unfoldable pub execute : (String → Option (Dict Outcome)) → Context → Outcome × Context
  execute unmarshal c = elim (lookup c "parallel.results") [
    | none ↦ (success_outcome, c)
    | some raw ↦
        if str_eq raw ""
        then (success_outcome, c)
        else elim (unmarshal raw) as (λ _. Outcome × Context) [
          | none ↦ (fail_outcome "fan_in: failed to parse parallel.results" deterministic, c)
          | some results ↦ conclude c (sort better results)
        ]
  ]
