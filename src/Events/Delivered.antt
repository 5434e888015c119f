-- ===== src/Events/Delivered.antt =====
-- internal/attractor/events/events.go: what the callbacks are called with.
use dfgo.Prelude.{
  ◌≤◌, true, ltb, List, [], ◌∷◌, ◌++◌, length, length-append, ◌≡◌, refl, sym, ap, ◌∙◌, All, arith,
  ++_assoc,
}
use dfgo.Prelude.Text.{ℤ}
use dfgo.Server.Broadcast.Valid.{
  IsSublist, nil, skip, IsSublist-refl, IsSublist-append, if-elim, All-map,
}
use dfgo.Events.{Callback, Emitter, new_emitter, on, emit, close_channel, call, drain_at, drain}

pub data Step {E : Type 0} : Emitter E → Emitter E → Type 0 where
  registered : (e : Emitter E) → Step e (on e)
  emitted : (evt : E) (e : Emitter E) → Step e (emit evt e)
  closed : (e : Emitter E) → Step e (close_channel e)
  drained : (e : Emitter E) → Step e (drain e)

pub data Reach {E : Type 0} (n : ℤ) : Emitter E → Type 0 where
  start : Reach n (new_emitter n)
  next : {d e : Emitter E} → Reach n d → Step d e → Reach n e

-- The callback has been called with each event that was taken since it was registered, in order.
abbrev pub IsCalled : {E : Type 0} → List E → Callback E → Type 0
IsCalled delivered c = c.missed ++ c.called ≡ delivered

pub record IsDelivered {E : Type 0} (e : Emitter E) : Type 0 where
  pub bounded : length e.buffer ≤ e.size
  pub kept : e.delivered ++ e.buffer ≡ e.accepted
  pub ordered : IsSublist e.accepted e.emitted
  pub called : All (IsCalled e.delivered) e.callbacks
  pub finished : e.done ≡ true → (e.closed ≡ true) × (e.delivered ≡ e.accepted)
  pub panics : e.panicked ≡ true → e.closed ≡ true

All-snoc :
    {A : Type 0} (P : A → Type 0) (xs : List A) (x : A) → All P xs → P x → All P (xs ++ x ∷ [])
All-snoc P [] x h p = (p, tt)
All-snoc P (y ∷ ys) x h p = (h.0, All-snoc P ys x h.1 p)

module _ {E : Type 0} where
  append_empty : (xs : List E) → xs ++ [] ≡ xs
  append_empty [] = refl
  append_empty (x ∷ xs) = ap (◌∷◌ x) (append_empty xs)

  nothing_left : (xs : List E) (evt : E) (rest ys : List E) → xs ++ evt ∷ rest ≡ ys → xs ≡ ys → ⊥
  nothing_left xs evt rest ys p q =
      let n = ap length (p ∙ sym q) in omega (arith, n, length-append xs (evt ∷ rest))

  on-IsDelivered : (e : Emitter E) → IsDelivered e → IsDelivered (on e)
  on-IsDelivered e h = record {
    bounded = h.bounded;
    kept = h.kept;
    ordered = h.ordered;
    called = All-snoc (IsCalled e.delivered) e.callbacks _ h.called (append_empty e.delivered);
    finished = h.finished;
    panics = h.panics;
  }

  close_channel-IsDelivered : (e : Emitter E) → IsDelivered e → IsDelivered (close_channel e)
  close_channel-IsDelivered e h = record {
    bounded = h.bounded;
    kept = h.kept;
    ordered = h.ordered;
    called = h.called;
    finished = λ d. (refl, (h.finished d).1);
    panics = λ p. refl;
  }

  emit-IsDelivered : (evt : E) (e : Emitter E) → IsDelivered e → IsDelivered (emit evt e)
  unfolding emit
  emit-IsDelivered evt e h =
      let longer = IsSublist-append h.ordered (skip evt nil) in
      if-elim IsDelivered e.closed _ _
        (λ over. record {
          bounded = h.bounded;
          kept = h.kept;
          ordered = rw (append_empty e.accepted) at longer;
          called = h.called;
          finished = h.finished;
          panics = λ p. over;
        })
        (λ live.
          if-elim IsDelivered (ltb (length e.buffer) e.size) _ _
            (λ room. record {
              bounded = ground (arith, room, length-append e.buffer (evt ∷ []));
              kept =
                  sym (++_assoc e.delivered e.buffer (evt ∷ [])) ∙ ap (λ x. x ++ evt ∷ []) h.kept;
              ordered = IsSublist-append h.ordered (IsSublist-refl (evt ∷ []));
              called = h.called;
              finished = λ d. let c = (h.finished d).0 in cc;
              panics = h.panics;
            })
            (λ full. record {
              bounded = h.bounded;
              kept = h.kept;
              ordered = rw (append_empty e.accepted) at longer;
              called = h.called;
              finished = h.finished;
              panics = h.panics;
            }))

  drain_at-IsDelivered :
      (es : List E) (e : Emitter E) → e.buffer ≡ es → IsDelivered e → IsDelivered (drain_at es e)
  drain_at-IsDelivered [] e b h =
      if-elim IsDelivered e.closed _ _
        (λ over. record {
          bounded = h.bounded;
          kept = h.kept;
          ordered = h.ordered;
          called = h.called;
          finished = λ d.
              (over, sym (append_empty e.delivered) ∙ ap (λ x. e.delivered ++ x) (sym b) ∙ h.kept);
          panics = h.panics;
        })
        (λ live. h)
  drain_at-IsDelivered (evt ∷ rest) e b h = record {
    bounded = let k = rw b at h.bounded in omega (arith, k);
    kept = ++_assoc e.delivered (evt ∷ []) rest ∙ ap (λ x. e.delivered ++ x) (sym b) ∙ h.kept;
    ordered = h.ordered;
    called =
        All-map (IsCalled e.delivered) _ (call evt)
          (λ c k. sym (++_assoc c.missed c.called (evt ∷ [])) ∙ ap (λ x. x ++ evt ∷ []) k)
          e.callbacks h.called;
    finished = λ d. absurd (
        nothing_left e.delivered evt rest e.accepted (ap (λ x. e.delivered ++ x) (sym b) ∙ h.kept)
          (h.finished d).1);
    panics = h.panics;
  }

  Step-IsDelivered : {d e : Emitter E} → Step d e → IsDelivered d → IsDelivered e
  unfolding drain
  Step-IsDelivered (registered e) h = on-IsDelivered e h
  Step-IsDelivered (emitted evt e) h = emit-IsDelivered evt e h
  Step-IsDelivered (closed e) h = close_channel-IsDelivered e h
  Step-IsDelivered (drained e) h = drain_at-IsDelivered e.buffer e refl h

  -- In whatever order events are emitted, callbacks registered, the emitter closed and its channel
  -- drained: the channel holds no more than its size; what it took is a part of the emitted events
  -- in their order; each callback has been called, in order and once each, with all events that
  -- were taken from the channel since it was registered; once the goroutine has ended, for which
  -- `Close` waits, these are all events that the channel took; and `Emit` panics only once the
  -- emitter is closed.
  pub Reach-IsDelivered : {n : ℤ} {e : Emitter E} → Reach n e → IsDelivered e
  unfolding new_emitter
  Reach-IsDelivered start = record {
    bounded = omega arith;
    kept = refl;
    ordered = nil;
    called = tt;
    finished = λ d. cc;
    panics = λ d. cc;
  }
  Reach-IsDelivered (next r s) = Step-IsDelivered s (Reach-IsDelivered r)
