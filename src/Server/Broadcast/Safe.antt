-- ===== src/Server/Broadcast/Safe.antt =====
-- internal/server/sse/broadcaster.go: the calls besides `Publish`, and every sequence of calls.
use dfgo.Prelude.{
  ℕ, suc, ◌≤◌, Bool, true, false, ◌||◌, ◌==◌, List, [], ◌∷◌, ◌++◌, length, All-mono, ◌≡◌, refl, sym,
  ap, ◌∙◌, arith, ++_assoc, ++_nil,
}
use dfgo.Server.Broadcast.{
  Broadcaster, Channel, new_broadcaster, elem, without, offer, close_channel, close_if, replay,
  subscribe, unregister, close, take_first, receive, sub_buf_size,
}
use dfgo.Server.Broadcast.Reach.{
  Step, Reach, published, subscribed, canceled, closed, received, start, next,
}
use dfgo.Server.Broadcast.Valid.{
  IsSublist, nil, skip, keep, IsSublist-refl, IsOk, IsValid, if-elim, All-map, offer-IsOk,
  open_when_in, publish-IsValid,
}

elem-append : (n : ℕ) (ms : List ℕ) (k : ℕ) → (n == k) ≡ false → elem n (ms ++ k ∷ []) ≡ elem n ms
elem-append n [] k h = rw h refl
elem-append n (m ∷ ms) k h = ap (λ b. n == m || b) (elem-append n ms k h)

elem-last : (ms : List ℕ) (k : ℕ) → elem k (ms ++ k ∷ []) ≡ true
elem-last [] k = ground arith
elem-last (m ∷ ms) k = ground (arith, elem-last ms k)

elem-without : (n k : ℕ) (ms : List ℕ) → (n == k) ≡ false → elem n (without k ms) ≡ elem n ms
elem-without n k [] h = refl
elem-without n k (m ∷ ms) h = ground (arith, h, elem-without n k ms h)

elem-without_self : (k : ℕ) (ms : List ℕ) → elem k (without k ms) ≡ false
elem-without_self k [] = refl
elem-without_self k (m ∷ ms) = ground (arith, elem-without_self k ms)

module _ {E : Type 0} where
  replay-IsOk :
      (subs : List ℕ) (last : ℕ) (h events : List E) (c : Channel E)
      → c.is_closed ≡ false
      → IsOk subs last events c
      → IsOk subs last (events ++ h) (replay h c)
  replay-IsOk subs last [] events c live k = rw (++_nil events) k
  replay-IsOk subs last (evt ∷ h) events c live k = rw (← ++_assoc events (evt ∷ []) h) (
      replay-IsOk subs last h (events ++ evt ∷ []) (offer evt c) (ground (arith, live))
        (offer-IsOk subs last events evt c live k))

  close_channel-IsOk :
      (subs : List ℕ) (last : ℕ) (events : List E) (c : Channel E)
      → c.id ≤ last
      → length c.buffer ≤ sub_buf_size
      → IsSublist (c.received ++ c.buffer) events
      → elem c.id subs ≡ false
      → c.panicked ≡ false
      → c.is_closed ≡ false
      → IsOk subs last events (close_channel c)
  close_channel-IsOk subs last events c n b o e safe live = record {
    bounded = b;
    numbered = n;
    registered = e;
    safe = ground (arith, safe, live);
    ordered = o;
  }

  replay-id : (h : List E) (c : Channel E) → (replay h c).id ≡ c.id
  replay-id [] c = refl
  replay-id (evt ∷ h) c = replay-id h (offer evt c) ∙ ground arith

  replay_open : (h : List E) (c : Channel E) → (replay h c).is_closed ≡ c.is_closed
  replay_open [] c = refl
  replay_open (evt ∷ h) c = replay_open h (offer evt c) ∙ ground arith

  IsSublist-trans :
      {ys zs : List E} → IsSublist ys zs → (xs : List E) → IsSublist xs ys → IsSublist xs zs
  IsSublist-trans nil xs h = h
  IsSublist-trans (skip z k) xs h = skip z (IsSublist-trans k xs h)
  IsSublist-trans (keep z k) xs (skip y h) = skip z (IsSublist-trans k xs h)
  IsSublist-trans (keep z k) (x ∷ xs) (keep y h) = keep z (IsSublist-trans k xs h)

  -- among other ids and later events
  IsOk-among :
      (subs subs' : List ℕ) (last last' : ℕ) (events events' : List E) (c : Channel E)
      → last ≤ last'
      → elem c.id subs' ≡ elem c.id subs
      → IsSublist events events'
      → IsOk subs last events c
      → IsOk subs' last' events' c
  IsOk-among subs subs' last last' events events' c n e o k = record {
    bounded = k.bounded;
    numbered = omega (arith, n, k.numbered);
    registered = e ∙ k.registered;
    safe = k.safe;
    ordered = IsSublist-trans o _ k.ordered;
  }

  abbrev fresh : ℕ → Channel E
  fresh id = record { id = id; buffer = []; is_closed = false; panicked = false; received = [] }

  replayed-IsOk :
      (id : ℕ) (subs : List ℕ) (h events : List E)
      → IsSublist h events
      → IsOk (subs ++ id ∷ []) id events (replay h (fresh id))
  replayed-IsOk id subs h events o =
      IsOk-among (subs ++ id ∷ []) (subs ++ id ∷ []) id id h events (replay h (fresh id))
        (omega arith) refl o
        (replay-IsOk (subs ++ id ∷ []) id h [] (fresh id) refl (record {
          bounded = omega arith;
          numbered = omega arith;
          registered = elem-last subs id;
          safe = refl;
          ordered = nil;
        }))

  subscribe-IsValid : (b : Broadcaster E) → IsValid b → IsValid (subscribe b)
  unfolding subscribe
  subscribe-IsValid b h =
      let id = suc b.next_id in
      let ch = replay b.history (fresh id) in
      let k = replayed-IsOk id b.subs b.history b.published h.recent in
      if-elim IsValid b.closed _ _
        (λ over. record {
          history = h.history;
          recent = h.recent;
          drained = h.drained;
          channels = (
            close_channel-IsOk b.subs id b.published ch k.numbered k.bounded k.ordered
                (rw (h.drained over) refl) k.safe (replay_open b.history (fresh id)),
            All-mono _ _
                (λ c j.
                  IsOk-among b.subs b.subs b.next_id id b.published b.published c (omega arith) refl
                    (IsSublist-refl b.published) j)
                b.channels h.channels,
          );
        })
        (λ live. record {
          history = h.history;
          recent = h.recent;
          drained = λ e. absurd (cc (live, e));
          channels = (
            k,
            All-mono _ _
                (λ c j.
                  IsOk-among b.subs (b.subs ++ id ∷ []) b.next_id id b.published b.published c
                    (omega arith) (elem-append c.id b.subs id (ground (arith, j.numbered)))
                    (IsSublist-refl b.published) j)
                b.channels h.channels,
          );
        })

  closing-IsOk :
      (subs subs' : List ℕ) (last : ℕ) (events : List E) (b : Bool) (c : Channel E)
      → (b ≡ true → (elem c.id subs ≡ true) × (elem c.id subs' ≡ false))
      → (b ≡ false → elem c.id subs' ≡ elem c.id subs)
      → IsOk subs last events c
      → IsOk subs' last events (close_if b c)
  closing-IsOk subs subs' last events true c gone same k =
      close_channel-IsOk subs' last events c k.numbered k.bounded k.ordered (gone refl).1 k.safe
        (open_when_in k (gone refl).0)
  closing-IsOk subs subs' last events false c gone same k =
      IsOk-among subs subs' last last events events c (omega arith) (same refl)
        (IsSublist-refl events) k

  unregister-IsValid : (id : ℕ) (b : Broadcaster E) → IsValid b → IsValid (unregister id b)
  unfolding unregister
  unregister-IsValid id b h =
      if-elim IsValid (elem id b.subs) _ _
        (λ there. record {
          history = h.history;
          recent = h.recent;
          drained = λ e. rw (h.drained e) refl;
          channels =
              All-map _ _ _
                (λ c k.
                  closing-IsOk b.subs (without id b.subs) b.next_id b.published (c.id == id) c
                    (λ e.
                      let same : c.id ≡ id = ground (arith, e) in
                      (rw same there, rw same (elem-without_self id b.subs)))
                    (λ e. elem-without c.id id b.subs e) k)
                b.channels h.channels;
        })
        (λ gone. h)

  close-IsValid : (b : Broadcaster E) → IsValid b → IsValid (close b)
  unfolding close
  close-IsValid b h =
      if-elim IsValid b.closed _ _ (λ over. h)
        (λ live. record {
          history = h.history;
          recent = h.recent;
          drained = λ e. refl;
          channels =
              All-map _ _ _
                (λ c k.
                  closing-IsOk b.subs [] b.next_id b.published (elem c.id b.subs) c (λ e. (e, refl))
                    (λ e. sym e) k)
                b.channels h.channels;
        })

  take_first-IsOk :
      (subs : List ℕ) (last : ℕ) (events : List E) (es : List E) (c : Channel E)
      → c.buffer ≡ es
      → IsOk subs last events c
      → IsOk subs last events (take_first es c)
  take_first-IsOk subs last events [] c e k = k
  take_first-IsOk subs last events (evt ∷ rest) c e k = record {
    bounded = let b = rw e at k.bounded in omega (arith, b);
    numbered = k.numbered;
    registered = k.registered;
    safe = k.safe;
    ordered = rw (++_assoc c.received (evt ∷ []) rest, ← e) k.ordered;
  }

  receive-IsValid : (id : ℕ) (b : Broadcaster E) → IsValid b → IsValid (receive id b)
  unfolding receive
  receive-IsValid id b h = record {
    history = h.history;
    recent = h.recent;
    drained = h.drained;
    channels =
        All-map _ _ _
          (λ c k.
            if-elim (IsOk b.subs b.next_id b.published) (c.id == id) _ _
              (λ e. take_first-IsOk b.subs b.next_id b.published c.buffer c refl k) (λ e. k))
          b.channels h.channels;
  }

  pub Step-IsValid : {b c : Broadcaster E} → Step b c → IsValid b → IsValid c
  Step-IsValid (published evt b) h = publish-IsValid evt b h
  Step-IsValid (subscribed b) h = subscribe-IsValid b h
  Step-IsValid (canceled id b) h = unregister-IsValid id b h
  Step-IsValid (closed b) h = close-IsValid b h
  Step-IsValid (received id b) h = receive-IsValid id b h

  -- After any sequence of calls of Publish, Subscribe and Close, of subscriptions that are canceled
  -- and of reads by consumers, from a new broadcaster: the history holds at most 1024 events and
  -- each channel at most 64; a channel is open exactly while its subscription is in the map, and
  -- none has been sent to or closed again once it was closed, at which Go would panic; the map of a closed broadcaster is empty; and
  -- what each consumer has read, with what waits in its channel, is a part of the published events
  -- in their order, without repetition.
  pub Reach-IsValid : {b : Broadcaster E} → Reach b → IsValid b
  unfolding new_broadcaster
  Reach-IsValid start = record {
    history = omega arith;
    recent = nil;
    drained = λ e. refl;
    channels = tt;
  }
  Reach-IsValid (next r s) = Step-IsValid s (Reach-IsValid r)
