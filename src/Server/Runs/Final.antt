-- ===== src/Server/Runs/Final.antt =====
-- internal/server/runmgr/manager.go: a run that is over stays as it is.
use dfgo.Prelude.{
  String, some, ◌≡◌, ◌≢◌, refl, sym, ap, ◌∙◌, inl, inr, Option-cases, str_eq-cases, arith,
}
use dfgo.Prelude.Dict.{get, put, get-put}
use dfgo.Prelude.Result.{ok, err}
use dfgo.Server.Runs.{
  running, Goroutine, executing, recorded, released, drained, done, Run, RunManager, Snapshot,
  snapshot, new_run_manager, defer_at, submit, cancel, canceled_run,
}
use dfgo.Server.Runs.Change.{
  Change, Event, Later, Later-trans, used, ended, deferred, submitted, asked, changed, now, after,
}
use dfgo.Server.Runs.Sound.{IsSound, IsManagerSound, Later-IsManagerSound, Agrees-when_there}

module _ {E : Type 0} where
  defer_at-snapshot : (g : Goroutine) (r : Run E) → snapshot (defer_at g r) ≡ snapshot r
  defer_at-snapshot executing r = refl
  defer_at-snapshot recorded r = refl
  defer_at-snapshot released r = refl
  defer_at-snapshot drained r = refl
  defer_at-snapshot done r = refl

  Change-snapshot :
      {r q : Run E} → Change r q → IsSound r → r.status ≢ running → snapshot q ≡ snapshot r
  Change-snapshot (used r c s same) h over = refl
  Change-snapshot (ended r result t live) h over =
      absurd (over (Agrees-when_there executing r live h).0)
  Change-snapshot (deferred r) h over = defer_at-snapshot r.goroutine r

  -- The run with the ID is still there, with what a snapshot shows.
  abbrev pub Kept : RunManager E → String → Snapshot → Type 0
  Kept m id s = (q : Run E) × (get m id ≡ some q) × (snapshot q ≡ s)

  put-Kept :
      (m : RunManager E) (id j : String) (q r : Run E)
      → get m j ≡ some r
      → (id ≡ j → snapshot q ≡ snapshot r)
      → Kept (put m id q) j (snapshot r)
  put-Kept m id j q r e same = elim (str_eq-cases id j) [
    | inl (b, p) ↦ (q, ground (arith, get-put m id j q, b), same p)
    | inr (b, _) ↦ (r, ground (arith, get-put m id j q, b, e), refl)
  ]

  same_run :
      (m : RunManager E) (id j : String) (q r : Run E)
      → get m id ≡ some q
      → get m j ≡ some r
      → id ≡ j
      → q ≡ r
  same_run m id j q r e h p = cc

  Event-Kept :
      {m p : RunManager E} (j : String) (r : Run E)
      → Event m p
      → IsManagerSound m
      → get m j ≡ some r
      → r.status ≢ running
      → Kept p j (snapshot r)
  unfolding submit cancel
  Event-Kept j r (submitted m id (err x) t fresh) h e over = (r, e, refl)
  Event-Kept j r (submitted m id (ok pipeline) t fresh) h e over = put-Kept m id j _ r e (λ p. cc)
  Event-Kept j r (asked m id) h e over = elim (Option-cases (get m id)) [
    | inl n ↦ rw (cancel, n) (r, e, refl)
    | inr (q, f) ↦
        rw (cancel, f)
          (put-Kept m id j (canceled_run q) r e (λ p. ap snapshot (same_run m id j q r f e p)))
  ]
  Event-Kept j r (changed m id q v f c) h e over = put-Kept m id j v r e (λ p.
      let same = same_run m id j q r f e p in
      Change-snapshot c (h id q f) (λ s. over (ap (λ x. x.status) (sym same) ∙ s))
      ∙ ap snapshot same)

  -- A run that is over stays as it is: in whatever order the calls, the goroutines and the clients
  -- go on from a state that the manager can be in, a run whose status is final is never dropped,
  -- and its status, its error and its times are never written again.
  pub Later-Kept :
      {m p : RunManager E} (id : String) (r : Run E)
      → Later new_run_manager m
      → get m id ≡ some r
      → r.status ≢ running
      → Later m p
      → Kept p id (snapshot r)
  Later-Kept id r reached e over now = (r, e, refl)
  Later-Kept id r reached e over (after k step) =
      let (q, found, same) = Later-Kept id r reached e over k in
      let (v, later, kept) =
        Event-Kept id q step (Later-IsManagerSound (Later-trans reached k)) found
          (λ s. over (sym (ap (λ x. x.status) same) ∙ s)) in
      (v, later, kept ∙ same)
