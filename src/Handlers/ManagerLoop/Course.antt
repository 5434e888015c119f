-- ===== src/Handlers/ManagerLoop/Course.antt =====
-- internal/attractor/handler/manager_loop.go: the course of the supervision, cycle by cycle.
use dfgo.Prelude.{
  ℕ, zero, suc, ◌+◌, ◌<◌, String, Bool, true, false, str_eq-cases, if◌then◌else◌, Option, some,
  none, ◌≡◌, ◌≢◌, refl, ◌⊎◌, inl, inr, Bool-cases, arith,
}
use dfgo.Prelude.Result.{Result, ok, err}
use dfgo.Prelude.Text.{ℤ}
use dfgo.Runtime.Outcome.{Outcome, success_outcome, fail_outcome, transient}
use dfgo.Handlers.ManagerLoop.{
  Manager, Settings, stops, child_status, observed, observed_if, canceled_outcome, child_error,
  waited, supervise, cycles_after_first, manage,
}
use dfgo.Handlers.ManagerLoop.Cycles.{
  cycle_limit, cycle_limit-cycles_after_first, HasReason, IsManaged, counted, nothing_met,
  manage-IsManaged,
}

module _ (m : Manager) (s : Settings) where
  -- Nothing that is observed ends the loop.
  pub data IsOpen (o : Outcome) (w : m.W) : Type 0 where
    blind : s.observe ≡ false → IsOpen o w
    seen :
        child_status m w ≢ "SUCCESS"
        → child_status m w ≢ "FAIL"
        → stops m s.stop o w ≡ false
        → IsOpen o w

  -- The pause of a cycle: whether it has passed, and the world behind it.
  pub data IsPause (w : m.W) : Bool → m.W → Type 0 where
    unasked : s.waits ≡ false → IsPause w true w
    asked : (b : Bool) (v : m.W) → s.waits ≡ true → m.wait w ≡ (b, v) → IsPause w b v

  -- The course from a state behind so many runs of the child on, the last of which returned the
  -- outcome: while runs are left, the context is looked at, then the child is observed, then there is
  -- a pause, then the child is run again.
  pub data IsCourse (limit : ℕ) : ℕ → Outcome → m.W → Outcome × m.W → Type 0 where
    used_up :
        (n : ℕ) (o : Outcome) (w : m.W)
        → n ≡ limit
        → IsCourse limit n o w (fail_outcome "manager_loop: max cycles exceeded" transient, w)
    ended :
        (n : ℕ) (o : Outcome) (w v : m.W)
        → n < limit
        → m.is_done w ≡ (true, v)
        → IsCourse limit n o w (canceled_outcome, v)
    succeeded :
        (n : ℕ) (o : Outcome) (w v : m.W)
        → n < limit
        → m.is_done w ≡ (false, v)
        → HasReason m s.observe s.stop o v
        → IsCourse limit n o w (success_outcome, v)
    child_failed :
        (n : ℕ) (o : Outcome) (w v : m.W)
        → n < limit
        → m.is_done w ≡ (false, v)
        → s.observe ≡ true
        → child_status m v ≡ "FAIL"
        → IsCourse limit n o w (fail_outcome "manager_loop: child failed" transient, v)
    interrupted :
        (n : ℕ) (o : Outcome) (w v u : m.W)
        → n < limit
        → m.is_done w ≡ (false, v)
        → IsOpen o v
        → IsPause v false u
        → IsCourse limit n o w (canceled_outcome, u)
    broken :
        (n : ℕ) (o : Outcome) (w v u x : m.W) (e : String)
        → n < limit
        → m.is_done w ≡ (false, v)
        → IsOpen o v
        → IsPause v true u
        → m.child s.children u ≡ (err e, x)
        → IsCourse limit n o w (child_error e, x)
    again :
        (n : ℕ) (o p : Outcome) (w v u x : m.W) (r : Outcome × m.W)
        → n < limit
        → m.is_done w ≡ (false, v)
        → IsOpen o v
        → IsPause v true u
        → m.child s.children u ≡ (ok p, x)
        → IsCourse limit (suc n) p x r
        → IsCourse limit n o w r

  data Found (o : Outcome) (w : m.W) : Option Outcome → Type 0 where
    onward : IsOpen o w → Found o w none
    good : HasReason m s.observe s.stop o w → Found o w (some success_outcome)
    bad :
        s.observe ≡ true
        → child_status m w ≡ "FAIL"
        → Found o w (some (fail_outcome "manager_loop: child failed" transient))

  observed-Found :
      (b : Bool) (o : Outcome) (w : m.W) → s.observe ≡ b → Found o w (observed_if m b s.stop o w)
  unfolding observed
  observed-Found false o w e = onward (blind e)
  observed-Found true o w e = elim (str_eq-cases (child_status m w) "SUCCESS") [
    | inl (b, p) ↦ rw (observed, b) (good (e, inl p))
    | inr (b, p) ↦ elim (str_eq-cases (child_status m w) "FAIL") [
      | inl (c, q) ↦ rw (observed, b, c) (bad e q)
      | inr (c, q) ↦ elim (Bool-cases (stops m s.stop o w)) [
        | inl d ↦ rw (observed, b, c, d) (good (e, inr d))
        | inr d ↦ rw (observed, b, c, d) (onward (seen p q d))
      ]
    ]
  ]

  module _ (limit left n : ℕ) (o : Outcome) (w : m.W) (few : suc n + left ≡ limit)
      (rest : (p : Outcome) (x : m.W) → IsCourse limit (suc n) p x (supervise m s left p x)) where
    child-IsCourse :
        (v u x : m.W) (r : Result String Outcome)
        → m.is_done w ≡ (false, v)
        → IsOpen o v
        → IsPause v true u
        → m.child s.children u ≡ (r, x)
        → IsCourse limit n o w
            (elim r [ err e ↦ (child_error e, x) | ok p ↦ supervise m s left p x ])
    child-IsCourse v u x (ok p) live goes_on pause ran =
        again n o p w v u x _ (omega (arith, few)) live goes_on pause ran (rest p x)
    child-IsCourse v u x (err e) live goes_on pause ran =
        broken n o w v u x e (omega (arith, few)) live goes_on pause ran

    elapsed-IsCourse :
        (v : m.W) (b : Bool) (u : m.W)
        → m.is_done w ≡ (false, v)
        → IsOpen o v
        → IsPause v b u
        → let (r, x) = m.child s.children u in
          IsCourse limit n o w (
            if b
            then elim r [ err e ↦ (child_error e, x) | ok p ↦ supervise m s left p x ]
            else (canceled_outcome, u))
    elapsed-IsCourse v true u live goes_on pause =
        child-IsCourse v u (m.child s.children u).1 (m.child s.children u).0 live goes_on pause refl
    elapsed-IsCourse v false u live goes_on pause =
        interrupted n o w v u (omega (arith, few)) live goes_on pause

    waited-IsPause :
        (b : Bool) (v : m.W) → s.waits ≡ b → IsPause v (waited m b v).0 (waited m b v).1
    waited-IsPause true v e = asked (m.wait v).0 (m.wait v).1 e refl
    waited-IsPause false v e = unasked e

    found-IsCourse :
        (v : m.W) (found : Option Outcome)
        → m.is_done w ≡ (false, v)
        → Found o v found
        → let (b, u) = waited m s.waits v in
          let (r, x) = m.child s.children u in
          IsCourse limit n o w (elim found [
            | some y ↦ (y, v)
            | none ↦
                if b
                then elim r [ err e ↦ (child_error e, x) | ok p ↦ supervise m s left p x ]
                else (canceled_outcome, u)
          ])
    found-IsCourse v found live (good h) = succeeded n o w v (omega (arith, few)) live h
    found-IsCourse v found live (bad h k) = child_failed n o w v (omega (arith, few)) live h k
    found-IsCourse v found live (onward h) =
        elapsed-IsCourse v (waited m s.waits v).0 (waited m s.waits v).1 live h
          (waited-IsPause s.waits v refl)

    done-IsCourse :
        (b : Bool) (v : m.W)
        → m.is_done w ≡ (b, v)
        → let (elapsed, u) = waited m s.waits v in
          let (r, x) = m.child s.children u in
          IsCourse limit n o w (
            if b then (canceled_outcome, v) else elim (observed_if m s.observe s.stop o v) [
              | some y ↦ (y, v)
              | none ↦
                  if elapsed
                  then elim r [ err e ↦ (child_error e, x) | ok p ↦ supervise m s left p x ]
                  else (canceled_outcome, u)
            ])
    done-IsCourse true v live = ended n o w v (omega (arith, few)) live
    done-IsCourse false v live = found-IsCourse v _ live (observed-Found s.observe o v refl)

  supervise-IsCourse :
      (limit left n : ℕ) (o : Outcome) (w : m.W)
      → n + left ≡ limit
      → IsCourse limit n o w (supervise m s left o w)
  unfolding supervise
  supervise-IsCourse limit zero n o w few = used_up n o w (omega (arith, few))
  supervise-IsCourse limit (suc left) n o w few =
      done-IsCourse limit left n o w (omega (arith, few))
        (λ p x. supervise-IsCourse limit left (suc n) p x (omega (arith, few))) (m.is_done w).0
        (m.is_done w).1 refl

  -- What the manager makes of the child's first run.
  abbrev pub IsSupervised : ℕ → m.W → Outcome × m.W → Type 0
  IsSupervised limit w r =
      ((e : String) × (v : m.W) × (m.child s.children w ≡ (err e, v)) × (r ≡ (child_error e, v)))
      ⊎ ((o : Outcome) × (v : m.W) × (m.child s.children w ≡ (ok o, v)) × IsCourse limit 1 o v r)

  started-IsSupervised :
      (limit left : ℕ) (w : m.W) (r : Result String Outcome) (v : m.W)
      → 1 + left ≡ limit
      → m.child s.children w ≡ (r, v)
      → IsSupervised limit w (elim r [ err e ↦ (child_error e, v) | ok o ↦ supervise m s left o v ])
  started-IsSupervised limit left w (err e) v few ran = inl (e, v, ran, refl)
  started-IsSupervised limit left w (ok o) v few ran =
      inr (o, v, ran, supervise-IsCourse limit left 1 o v few)

  -- The manager's loop ends. With max_cycles as its limit, or 1 where that is less, it runs the
  -- child at least once and at most that often, and ends in one of these ways: with success, only
  -- where it observes and either the child's status in the context is SUCCESS or the stop condition
  -- holds for the outcome that the child returned last; with the failure of the child, only where it
  -- observes and that status is FAIL; canceled, only where the context was found to have ended; with
  -- the error that the child's last run returned; or with the failure that says that the cycles are
  -- used up, only where the child has run exactly as often as the limit says. And its course is as
  -- follows: the child is run, and while runs are left, the context is looked at, the child is
  -- observed, where that is asked for, and the interval is waited for, where that is asked for; the
  -- child is run again only where the context has not ended, the observation, where it is made, gave
  -- no reason to end, and the interval has passed.
  pub manage-IsSupervised :
      (max_cycles : ℤ) (w : m.W)
      → let limit = cycle_limit max_cycles in
        IsManaged m s limit (manage (counted m) s max_cycles (nothing_met, w))
        × IsSupervised limit w (manage m s max_cycles w)
  unfolding manage
  manage-IsSupervised max_cycles w =
      let first = cycle_limit-cycles_after_first max_cycles in
      (
        manage-IsManaged m s max_cycles w,
        started-IsSupervised (cycle_limit max_cycles) (cycles_after_first max_cycles) w
            (m.child s.children w).0 (m.child s.children w).1 (omega (arith, first)) refl,
      )
