-- ===== src/Server/Runs/Sound.antt =====
-- internal/server/runmgr/manager.go: what the status of a run says of its goroutine.
use dfgo.Prelude.{
  ℕ, Bool, true, false, String, Option, some, none, ◌≡◌, refl, sym, inl, inr, Bool-cases,
  Option-cases, str_eq, arith,
}
use mathlib.Core.Path.{subst}
use dfgo.Prelude.Dict.{get, put, get-put}
use dfgo.Prelude.Result.{Result, ok, err}
use dfgo.Server.Broadcast.{Broadcaster, new_broadcaster, close}
use dfgo.Server.Broadcast.Reach.{Step, start, closed}
use dfgo.Server.Broadcast.Valid.{IsValid, if-elim}
use dfgo.Server.Broadcast.Safe.{Step-IsValid, Reach-IsValid}
use dfgo.Server.Runs.{
  RunStatus, running, completed, failed, canceled, Goroutine, executing, recorded, released,
  drained, done, Run, RunManager, new_run, new_run_manager, finish, defer_at, submit, cancel,
  canceled_run,
}
use dfgo.Server.Runs.Change.{
  Change, Event, Later, used, ended, deferred, submitted, asked, changed, now, after,
}

-- A final status, with its error, the state of the context and the time of the end.
pub data IsFinal : RunStatus → String → Bool → Option ℕ → Type 0 where
  was_completed : (c : Bool) (t : ℕ) → IsFinal completed "" c (some t)
  has_failed : (e : String) (c : Bool) (t : ℕ) → IsFinal failed e c (some t)
  was_canceled : (t : ℕ) → IsFinal canceled "canceled" true (some t)

-- What the fields are, by how far the goroutine is: status, error, time of the end, context, and
-- whether the broadcaster is closed.
abbrev pub Agrees : Goroutine → RunStatus → String → Option ℕ → Bool → Bool → Type 0
Agrees executing s e t c b = (s ≡ running) × (e ≡ "") × (t ≡ none) × (b ≡ false)
Agrees recorded s e t c b = IsFinal s e c t × (b ≡ false)
Agrees released s e t c b = IsFinal s e c t × (b ≡ false) × (c ≡ true)
Agrees drained s e t c b = IsFinal s e c t × (b ≡ true) × (c ≡ true)
Agrees done s e t c b = IsFinal s e c t × (b ≡ true) × (c ≡ true)

pub record IsSound {E : Type 0} (r : Run E) : Type 0 where
  pub valid : IsValid r.broadcaster
  pub agrees : Agrees r.goroutine r.status r.error r.completed_at r.is_canceled r.broadcaster.closed

module _ {E : Type 0} where
  abbrev pub IsManagerSound : RunManager E → Type 0
  IsManagerSound m = (id : String) (r : Run E) → get m id ≡ some r → IsSound r

IsFinal-true :
    {s : RunStatus} {e : String} {c : Bool} {t : Option ℕ} → IsFinal s e c t → IsFinal s e true t
IsFinal-true (was_completed c t) = was_completed true t
IsFinal-true (has_failed e c t) = has_failed e true t
IsFinal-true (was_canceled t) = was_canceled t

Agrees-true :
    (g : Goroutine) (s : RunStatus) (e : String) (t : Option ℕ) (c b : Bool)
    → Agrees g s e t c b
    → Agrees g s e t true b
Agrees-true executing s e t c b h = h
Agrees-true recorded s e t c b (f, p) = (IsFinal-true f, p)
Agrees-true released s e t c b (f, p, q) = (IsFinal-true f, p, refl)
Agrees-true drained s e t c b (f, p, q) = (IsFinal-true f, p, refl)
Agrees-true done s e t c b (f, p, q) = (IsFinal-true f, p, refl)

IsFinal-canceled : (c : Bool) (t : ℕ) → c ≡ true → IsFinal canceled "canceled" c (some t)
IsFinal-canceled true t e = was_canceled t
IsFinal-canceled false t e = cc

module _ {E : Type 0} where
  closed-close : (b : Broadcaster E) → (close b).closed ≡ true
  unfolding close
  closed-close b =
      if-elim (λ (x : Broadcaster E). x.closed ≡ true) b.closed _ _ (λ e. e) (λ e. refl)

  canceled_run-IsSound : (r : Run E) → IsSound r → IsSound (canceled_run r)
  canceled_run-IsSound r h = record {
    valid = h.valid;
    agrees = Agrees-true r.goroutine _ _ _ _ _ h.agrees;
  }

  finish-IsSound :
      (result : Result String (Unit {0})) (t : ℕ) (r : Run E)
      → r.broadcaster.closed ≡ false
      → IsSound r
      → IsSound (finish result t r)
  finish-IsSound (ok _) t r live h = record {
    valid = h.valid;
    agrees = (was_completed r.is_canceled t, live);
  }
  finish-IsSound (err e) t r live h =
      if-elim (λ (x : Run E). IsSound (record x { goroutine = recorded })) r.is_canceled _ _
        (λ b. record { valid = h.valid; agrees = (IsFinal-canceled r.is_canceled t b, live) })
        (λ b. record { valid = h.valid; agrees = (has_failed e r.is_canceled t, live) })

  defer_at-IsSound :
      (g : Goroutine) (r : Run E)
      → Agrees g r.status r.error r.completed_at r.is_canceled r.broadcaster.closed
      → IsSound r
      → IsSound (defer_at g r)
  defer_at-IsSound executing r a h = h
  defer_at-IsSound recorded r (f, live) h = record {
    valid = h.valid;
    agrees = (IsFinal-true f, live, refl);
  }
  defer_at-IsSound released r (f, live, gone) h = record {
    valid = Step-IsValid (closed r.broadcaster) h.valid;
    agrees = (f, closed-close r.broadcaster, gone);
  }
  defer_at-IsSound drained r a h = record { valid = h.valid; agrees = a }
  defer_at-IsSound done r a h = h

  used-IsSound :
      (r : Run E) (c : Broadcaster E)
      → Step r.broadcaster c
      → c.closed ≡ r.broadcaster.closed
      → IsSound r
      → IsSound (record r { broadcaster = c })
  used-IsSound r c s same h = record {
    valid = Step-IsValid s h.valid;
    agrees =
        subst (λ b. Agrees r.goroutine r.status r.error r.completed_at r.is_canceled b) (sym same)
          h.agrees;
  }

  -- what the goroutine's place says, at a place that it is known to be at
  pub Agrees-when_there :
      (g : Goroutine) (r : Run E)
      → r.goroutine ≡ g
      → IsSound r
      → Agrees g r.status r.error r.completed_at r.is_canceled r.broadcaster.closed
  Agrees-when_there g r same h =
      subst (λ x. Agrees x r.status r.error r.completed_at r.is_canceled r.broadcaster.closed) same
        h.agrees

  Change-IsSound : {r q : Run E} → Change r q → IsSound r → IsSound q
  Change-IsSound (used r c s same) h = used-IsSound r c s same h
  Change-IsSound (ended r result t live) h =
      finish-IsSound result t r (Agrees-when_there executing r live h).3 h
  Change-IsSound (deferred r) h = defer_at-IsSound r.goroutine r h.agrees h

  new_run-IsSound : (id pipeline : String) (t : ℕ) → IsSound {E = E} (new_run id pipeline t)
  unfolding new_broadcaster
  new_run-IsSound id pipeline t = record {
    valid = Reach-IsValid start;
    agrees = (refl, refl, refl, refl);
  }

  put-IsManagerSound :
      (m : RunManager E) (id : String) (r : Run E)
      → IsSound r
      → IsManagerSound m
      → IsManagerSound (put m id r)
  put-IsManagerSound m id r h k j q e = elim (Bool-cases (str_eq id j)) [
    | inl b ↦ let same : r ≡ q = ground (arith, get-put m id j r, b, e) in subst IsSound same h
    | inr b ↦ k j q (ground (arith, get-put m id j r, b, e))
  ]

  Event-IsManagerSound : {m p : RunManager E} → Event m p → IsManagerSound m → IsManagerSound p
  unfolding submit cancel
  Event-IsManagerSound (submitted m id (err e) t fresh) h = h
  Event-IsManagerSound (submitted m id (ok pipeline) t fresh) h =
      put-IsManagerSound m id _ (new_run-IsSound id pipeline t) h
  Event-IsManagerSound (asked m id) h = elim (Option-cases (get m id)) [
    | inl n ↦ rw (cancel, n) h
    | inr (r, e) ↦ rw (cancel, e) (put-IsManagerSound m id _ (canceled_run-IsSound r (h id r e)) h)
  ]
  Event-IsManagerSound (changed m id r q e c) h =
      put-IsManagerSound m id q (Change-IsSound c (h id r e)) h

  -- However the calls of Submit and Cancel, the runs' goroutines, the engines' events and the
  -- clients' subscriptions are interleaved, from a manager without runs: a run is running, without
  -- an error and a time of its end and with its broadcaster open, exactly until its result is
  -- recorded; from then on it has one of the three final statuses and the time of its end,
  -- completed with no error, and canceled only if its context was; its broadcaster is closed only
  -- behind that, so that a client whose events end finds a final status; where the goroutine has
  -- ended the context has ended too; and its broadcaster is valid at all times.
  pub Later-IsManagerSound : {m : RunManager E} → Later new_run_manager m → IsManagerSound m
  unfolding get
  Later-IsManagerSound now id r e = cc
  Later-IsManagerSound (after k e) id r h = Event-IsManagerSound e (Later-IsManagerSound k) id r h
