-- ===== src/Tests/Server.antt =====
-- The broadcaster at concrete calls.
use dfgo.Prelude.{ℕ, Bool, [], ◌∷◌, ◌≡◌, refl, take}
use dfgo.Server.Broadcast.{
  Broadcaster, Channel, new_broadcaster, publish, subscribe, close, receive, sub_buf_size,
}
use dfgo.Server.Broadcast.Reach.{start, next, published, subscribed, closed, received}
use dfgo.Server.Broadcast.Valid.{IsValid}
use dfgo.Server.Broadcast.Safe.{Reach-IsValid}
use dfgo.Server.Broadcast.Replay.{subscribe-take}

-- one event before the subscription and one behind it, a read, and the end
abbrev session : Broadcaster ℕ
session = close (receive 1 (publish 8 (subscribe (publish 7 new_broadcaster))))

Reach-IsValid_example : IsValid session
Reach-IsValid_example = Reach-IsValid (
    next
      (next (next (next (next start (published 7 _)) (subscribed _)) (published 8 _))
        (received 1 _))
      (closed _))

session_channels :
    session.channels
    ≡ record {
      id = 1;
      buffer = 8 ∷ [];
      is_closed = Bool.true;
      panicked = Bool.false;
      received = 7 ∷ [];
    }
      ∷ []
unfolding close receive publish subscribe new_broadcaster
session_channels = refl

abbrev ready : Broadcaster ℕ
ready = record {
  history = 4 ∷ 5 ∷ [];
  subs = [];
  channels = [];
  next_id = 0;
  closed = Bool.false;
  published = 4 ∷ 5 ∷ [];
}

abbrev joined : Channel ℕ
joined = record {
  id = 1;
  buffer = 4 ∷ 5 ∷ [];
  is_closed = Bool.false;
  panicked = Bool.false;
  received = [];
}

subscribe-take_example : (joined.buffer ≡ take sub_buf_size ready.history) × ([] ≡ ready.channels)
unfolding subscribe
subscribe-take_example = subscribe-take ready joined [] refl
