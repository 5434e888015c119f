-- ===== src/Handlers/FanIn/Rank.antt =====
-- internal/attractor/handler/fan_in.go: the order of the branches, stated without the handler's tests.
use dfgo.Prelude.{
  String, Char, code, ◌≤◌, ltb, ◌<◌, true, false, List, [], ◌∷◌, ◌≡◌, refl, Bool-cases, inl, inr,
  arith, All,
}
use dfgo.Prelude.Sort.{IsOrder}
use dfgo.Runtime.Outcome.{
  StageStatus, success, partial_success, retry, fail, other, is_success, is_success_status,
}
use dfgo.Handlers.FanIn.{status_priority, text_less, Ranked, better, any_success}

text_less-asym : (s t : String) → text_less s t ≡ true → text_less t s ≡ false
unfolding text_less
text_less-asym String.[] String.[] h = refl
text_less-asym String.[] (String.◌∷◌ d t) h = refl
text_less-asym (String.◌∷◌ c s) String.[] h = cc
text_less-asym (String.◌∷◌ c s) (String.◌∷◌ d t) h = ground (arith, h, text_less-asym s t)

text_less-neg_trans :
    (s t u : String) → text_less s t ≡ false → text_less t u ≡ false → text_less s u ≡ false
unfolding text_less
text_less-neg_trans s t String.[] h k = none_below s
  where
    none_below : (x : String) → text_less x String.[] ≡ false
    none_below String.[] = refl
    none_below (String.◌∷◌ c x) = refl
text_less-neg_trans String.[] String.[] (String.◌∷◌ e u) h k = cc
text_less-neg_trans String.[] (String.◌∷◌ d t) (String.◌∷◌ e u) h k = cc
text_less-neg_trans (String.◌∷◌ c s) String.[] (String.◌∷◌ e u) h k = cc
text_less-neg_trans (String.◌∷◌ c s) (String.◌∷◌ d t) (String.◌∷◌ e u) h k =
    ground (arith, h, k, text_less-neg_trans s t u)

pub better-IsOrder : IsOrder better
unfolding better
better-IsOrder = record {
  asym = λ (i, a) (j, b) h. ground (arith, h, text_less-asym i j);
  neg_trans = λ (i, a) (j, b) (k, c) p q. ground (arith, p, q, text_less-neg_trans i j k);
}

-- The statuses from best to worst, any that is not one of the four behind them.
pub data IsAbove : StageStatus → StageStatus → Type 0 where
  success_partial : IsAbove success partial_success
  success_retry : IsAbove success retry
  success_fail : IsAbove success fail
  success_other : (x : String) → IsAbove success (other x)
  partial_retry : IsAbove partial_success retry
  partial_fail : IsAbove partial_success fail
  partial_other : (x : String) → IsAbove partial_success (other x)
  retry_fail : IsAbove retry fail
  retry_other : (x : String) → IsAbove retry (other x)
  fail_other : (x : String) → IsAbove fail (other x)

-- The order of texts: a proper prefix, or the smaller character at the first difference.
pub data IsBefore : String → String → Type 0 where
  shorter : (d : Char) (t : String) → IsBefore String.[] (String.◌∷◌ d t)
  smaller :
      (c d : Char) (s t : String) → code c < code d → IsBefore (String.◌∷◌ c s) (String.◌∷◌ d t)
  behind :
      (c d : Char) (s t : String)
      → code c ≡ code d
      → IsBefore s t
      → IsBefore (String.◌∷◌ c s) (String.◌∷◌ d t)

-- A branch that has done its work, in full or in part.
pub data IsGood : StageStatus → Type 0 where
  in_full : IsGood success
  in_part : IsGood partial_success

-- A branch is no rival of the best one: its status is not above, and where the best one's is not
-- above either, its ID is not before.
pub record IsNoRival (best b : Ranked) : Type 0 where
  pub not_above : IsAbove b.1.status best.1.status → ⊥
  pub not_before : (IsAbove best.1.status b.1.status → ⊥) → IsBefore b.0 best.0 → ⊥

IsAbove-priority : {s t : StageStatus} → IsAbove s t → status_priority s < status_priority t
IsAbove-priority success_partial = omega arith
IsAbove-priority success_retry = omega arith
IsAbove-priority success_fail = omega arith
IsAbove-priority (success_other x) = omega arith
IsAbove-priority partial_retry = omega arith
IsAbove-priority partial_fail = omega arith
IsAbove-priority (partial_other x) = omega arith
IsAbove-priority retry_fail = omega arith
IsAbove-priority (retry_other x) = omega arith
IsAbove-priority (fail_other x) = omega arith

priority-IsAbove : (s t : StageStatus) → status_priority s < status_priority t → IsAbove s t
priority-IsAbove success success h = absurd (omega (arith, h))
priority-IsAbove success partial_success h = success_partial
priority-IsAbove success retry h = success_retry
priority-IsAbove success fail h = success_fail
priority-IsAbove success (other y) h = success_other y
priority-IsAbove partial_success success h = absurd (omega (arith, h))
priority-IsAbove partial_success partial_success h = absurd (omega (arith, h))
priority-IsAbove partial_success retry h = partial_retry
priority-IsAbove partial_success fail h = partial_fail
priority-IsAbove partial_success (other y) h = partial_other y
priority-IsAbove retry success h = absurd (omega (arith, h))
priority-IsAbove retry partial_success h = absurd (omega (arith, h))
priority-IsAbove retry retry h = absurd (omega (arith, h))
priority-IsAbove retry fail h = retry_fail
priority-IsAbove retry (other y) h = retry_other y
priority-IsAbove fail success h = absurd (omega (arith, h))
priority-IsAbove fail partial_success h = absurd (omega (arith, h))
priority-IsAbove fail retry h = absurd (omega (arith, h))
priority-IsAbove fail fail h = absurd (omega (arith, h))
priority-IsAbove fail (other y) h = fail_other y
priority-IsAbove (other x) success h = absurd (omega (arith, h))
priority-IsAbove (other x) partial_success h = absurd (omega (arith, h))
priority-IsAbove (other x) retry h = absurd (omega (arith, h))
priority-IsAbove (other x) fail h = absurd (omega (arith, h))
priority-IsAbove (other x) (other y) h = absurd (omega (arith, h))

IsBefore-text_less : {s t : String} → IsBefore s t → text_less s t ≡ true
unfolding text_less
IsBefore-text_less (shorter d t) = refl
IsBefore-text_less (smaller c d s t h) = ground (arith, h)
IsBefore-text_less (behind c d s t e h) = ground (arith, e, IsBefore-text_less h)

pub better-IsNoRival : (best b : Ranked) → better b best ≡ false → IsNoRival best b
unfolding better
better-IsNoRival (i, o) (j, p) h =
    let b = status_priority p.status in
    let best = status_priority o.status in
    let not_less : best ≤ b = ground (arith, h) in
    record {
      not_above = λ a. let k = IsAbove-priority a in omega (arith, k, not_less);
      not_before = λ not_below before.
          let same : b ≤ best = elim (Bool-cases (ltb best b)) [
            | inl less ↦
                absurd (not_below (priority-IsAbove o.status p.status (ground (arith, less))))
            | inr more ↦ ground (arith, more)
          ] in
          let t = IsBefore-text_less before in ground (arith, h, t, same, not_less);
    }

pub IsGood-true : (s : StageStatus) → is_success_status s ≡ true → IsGood s
IsGood-true success h = in_full
IsGood-true partial_success h = in_part
IsGood-true retry h = cc
IsGood-true fail h = cc
IsGood-true (other x) h = cc

pub true-IsGood : {s : StageStatus} → IsGood s → is_success_status s ≡ true
true-IsGood in_full = refl
true-IsGood in_part = refl

-- what is above a status that is not good
good-IsAbove :
    (s t : StageStatus) → is_success_status s ≡ true → is_success_status t ≡ false → IsAbove s t
good-IsAbove success retry h k = success_retry
good-IsAbove success fail h k = success_fail
good-IsAbove success (other x) h k = success_other x
good-IsAbove partial_success retry h k = partial_retry
good-IsAbove partial_success fail h k = partial_fail
good-IsAbove partial_success (other x) h k = partial_other x
good-IsAbove s success h k = cc
good-IsAbove s partial_success h k = cc
good-IsAbove retry t h k = cc
good-IsAbove fail t h k = cc
good-IsAbove (other x) t h k = cc

none_good :
    (best : Ranked) (rs : List Ranked)
    → is_success best.1 ≡ false
    → All (IsNoRival best) rs
    → any_success rs ≡ false
none_good best [] h k = refl
none_good best (r ∷ rs) h k =
    let bad : is_success r.1 ≡ false = elim (Bool-cases (is_success r.1)) [
      | inl good ↦ absurd (k.0.not_above (good-IsAbove r.1.status best.1.status good h))
      | inr b ↦ b
    ] in
    let rest = none_good best rs h k.1 in ground (arith, bad, rest)

-- The verdict on a ranked list is that of its first branch.
pub verdict_first :
    (best : Ranked) (rs : List Ranked)
    → All (IsNoRival best) rs
    → any_success (best ∷ rs) ≡ is_success best.1
verdict_first best rs k = elim (Bool-cases (is_success best.1)) [
  | inl good ↦ ground (arith, good)
  | inr bad ↦ let rest = none_good best rs bad k in ground (arith, bad, rest)
]
