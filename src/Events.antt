-- ===== src/Events.antt =====
-- internal/attractor/events/events.go: the emitter of events. The events are of any type E; each
-- method and each round of `drain` is one step. A callback is known by what it is called with.
-- `emitted`, `accepted` and `delivered` record the events given to `Emit`, those that the channel
-- took, and those that `drain` has taken from it.
pub mod Delivered
use dfgo.Prelude.{
  ℕ, zero, suc, Bool, true, false, ltb, if◌then◌else◌, List, [], ◌∷◌, ◌++◌, map, length,
}
use dfgo.Prelude.Text.{ℤ, pos, negsuc}

pub record Callback (E : Type 0) : Type 0 where
  pub missed : List E
  pub called : List E

pub record Emitter (E : Type 0) : Type 0 where
  pub callbacks : List (Callback E)
  pub buffer : List E
  pub size : ℕ
  pub closed : Bool
  pub done : Bool
  pub panicked : Bool
  pub emitted : List E
  pub accepted : List E
  pub delivered : List E

-- a size that is not positive is 256
abbrev pub buffer_size : ℤ → ℕ
buffer_size (pos zero) = 256
buffer_size (pos (suc n)) = suc n
buffer_size (negsuc n) = 256

module _ {E : Type 0} where
  unfoldable pub new_emitter : ℤ → Emitter E
  new_emitter n = record {
    callbacks = [];
    buffer = [];
    size = buffer_size n;
    closed = false;
    done = false;
    panicked = false;
    emitted = [];
    accepted = [];
    delivered = [];
  }

  abbrev pub on : Emitter E → Emitter E
  on e = record e { callbacks = e.callbacks ++ record { missed = e.delivered; called = [] } ∷ [] }

  -- A send that does not block: it is dropped where the channel is full, and panics where it is
  -- closed.
  unfoldable pub emit : E → Emitter E → Emitter E
  emit evt e =
      let t : Emitter E = record e { emitted = e.emitted ++ evt ∷ [] } in
      if e.closed
      then record t { panicked = true }
      else if ltb (length e.buffer) e.size
      then record t { buffer = e.buffer ++ evt ∷ []; accepted = e.accepted ++ evt ∷ [] }
      else t

  -- `Close` up to its wait for `done`
  abbrev pub close_channel : Emitter E → Emitter E
  close_channel e = record e { closed = true }

  abbrev pub call : E → Callback E → Callback E
  call evt c = record c { called = c.called ++ evt ∷ [] }

  -- One round of `drain`, which ends where the channel is closed and empty, and waits where it is
  -- only empty.
  abbrev pub drain_at : List E → Emitter E → Emitter E
  drain_at [] e = if e.closed then record e { done = true } else e
  drain_at (evt ∷ rest) e = record e {
    buffer = rest;
    callbacks = map (call evt) e.callbacks;
    delivered = e.delivered ++ evt ∷ [];
  }

  unfoldable pub drain : Emitter E → Emitter E
  drain e = drain_at e.buffer e
