-- ===== src/Server/Broadcast.antt =====
-- internal/server/sse/broadcaster.go: the fan-out of events to subscribers. Each method holds the
-- lock, so a run is a sequence of calls; the events are of any type E. `received` and `published`
-- record what a consumer has read and what `Publish` has taken.
pub mod Reach
pub mod Valid
pub mod Safe
pub mod Replay
use dfgo.Prelude.{
  ℕ, zero, suc, ◌+◌, ◌-◌, Bool, true, false, not, ◌||◌, ◌==◌, leb, ltb, if◌then◌else◌, List, [],
  ◌∷◌, ◌++◌, map, length, take, drop,
}

abbrev pub max_history : ℕ
max_history = 1024

abbrev pub sub_buf_size : ℕ
sub_buf_size = 64

-- The channel of a `Subscription`, with its id. Go panics on a send to a closed channel and on a
-- second close of one: `panicked` records either.
pub record Channel (E : Type 0) : Type 0 where
  pub id : ℕ
  pub buffer : List E
  pub is_closed : Bool
  pub panicked : Bool
  pub received : List E

-- `subs` holds the ids in the map; `channels` all that have been made.
pub record Broadcaster (E : Type 0) : Type 0 where
  pub history : List E
  pub subs : List ℕ
  pub channels : List (Channel E)
  pub next_id : ℕ
  pub closed : Bool
  pub published : List E

abbrev pub elem : ℕ → List ℕ → Bool
elem n [] = false
elem n (m ∷ ms) = n == m || elem n ms

abbrev pub without : ℕ → List ℕ → List ℕ
without n [] = []
without n (m ∷ ms) = if n == m then without n ms else m ∷ without n ms

module _ {E : Type 0} where
  unfoldable pub new_broadcaster : Broadcaster E
  new_broadcaster = record {
    history = [];
    subs = [];
    channels = [];
    next_id = 0;
    closed = false;
    published = [];
  }

  -- a send to the channel, or its close
  abbrev pub touched : Channel E → Channel E
  touched c = record c { panicked = c.panicked || c.is_closed }

  -- a send that does not block
  abbrev pub offer : E → Channel E → Channel E
  offer evt c =
      if ltb (length c.buffer) sub_buf_size
      then record (touched c) { buffer = c.buffer ++ evt ∷ [] }
      else touched c

  abbrev pub close_channel : Channel E → Channel E
  close_channel c = record (touched c) { is_closed = true }

  abbrev pub trim_history : List E → List E
  trim_history h = if leb (length h) max_history then h else drop (length h - max_history) h

  abbrev pub offer_if : Bool → E → Channel E → Channel E
  offer_if b evt c = if b then offer evt c else c

  abbrev pub close_if : Bool → Channel E → Channel E
  close_if b c = if b then close_channel c else c

  unfoldable pub publish : E → Broadcaster E → Broadcaster E
  publish evt b = if b.closed then b else record b {
    history = trim_history (b.history ++ evt ∷ []);
    channels = map (λ c. offer_if (elem c.id b.subs) evt c) b.channels;
    published = b.published ++ evt ∷ [];
  }

  -- The history is offered event by event to an empty channel.
  abbrev pub replay : List E → Channel E → Channel E
  replay [] c = c
  replay (evt ∷ es) c = replay es (offer evt c)

  unfoldable pub subscribe : Broadcaster E → Broadcaster E
  subscribe b =
      let id = suc b.next_id in
      let fresh : Channel E = record {
        id = id;
        buffer = [];
        is_closed = false;
        panicked = false;
        received = [];
      } in
      let ch = replay b.history fresh in
      if b.closed
      then record b { next_id = id; channels = close_channel ch ∷ b.channels }
      else record b { next_id = id; channels = ch ∷ b.channels; subs = b.subs ++ id ∷ [] }

  -- The goroutine of `Subscribe`, once the subscription's context is done.
  unfoldable pub unregister : ℕ → Broadcaster E → Broadcaster E
  unregister id b =
      if elem id b.subs
      then record b {
        subs = without id b.subs;
        channels = map (λ c. close_if (c.id == id) c) b.channels;
      }
      else b

  -- `Close`: `sub.cancel` lets the goroutines run, which then find nothing to unregister.
  unfoldable pub close : Broadcaster E → Broadcaster E
  close b = if b.closed then b else record b {
    closed = true;
    channels = map (λ c. close_if (elem c.id b.subs) c) b.channels;
    subs = [];
  }

  abbrev pub take_first : List E → Channel E → Channel E
  take_first [] c = c
  take_first (evt ∷ rest) c = record c { buffer = rest; received = c.received ++ evt ∷ [] }

  -- A consumer reads from its channel.
  unfoldable pub receive : ℕ → Broadcaster E → Broadcaster E
  receive id b = record b {
    channels = map (λ c. if c.id == id then take_first c.buffer c else c) b.channels;
  }

  -- `History`
  abbrev pub history_copy : Broadcaster E → List E
  history_copy b = b.history
