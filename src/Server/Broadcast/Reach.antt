-- ===== src/Server/Broadcast/Reach.antt =====
-- internal/server/sse/broadcaster.go: the calls, in any order.
use dfgo.Prelude.{ℕ}
use dfgo.Server.Broadcast.{
  Broadcaster, new_broadcaster, publish, subscribe, unregister, close, receive,
}

-- What can happen next: a call by the program, or a read by a consumer.
pub data Step {E : Type 0} : Broadcaster E → Broadcaster E → Type 0 where
  published : (evt : E) (b : Broadcaster E) → Step b (publish evt b)
  subscribed : (b : Broadcaster E) → Step b (subscribe b)
  canceled : (id : ℕ) (b : Broadcaster E) → Step b (unregister id b)
  closed : (b : Broadcaster E) → Step b (close b)
  received : (id : ℕ) (b : Broadcaster E) → Step b (receive id b)

pub data Reach {E : Type 0} : Broadcaster E → Type 0 where
  start : Reach new_broadcaster
  next : {b c : Broadcaster E} → Reach b → Step b c → Reach c
