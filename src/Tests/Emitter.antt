-- ===== src/Tests/Emitter.antt =====
-- The emitter of events at a concrete sequence of calls.
use dfgo.Prelude.{ℕ, Bool, [], ◌∷◌, ◌≡◌, refl}
use dfgo.Prelude.Text.{pos}
use dfgo.Events.{Emitter, new_emitter, on, emit, close_channel, drain}
use dfgo.Events.Delivered.{
  IsDelivered, Reach-IsDelivered, start, next, registered, emitted, closed, drained,
}

-- a channel of one place, and a callback that comes behind the first event
abbrev run : Emitter ℕ
run = drain (drain (close_channel (emit 9 (emit 8 (on (drain (emit 7 (new_emitter (pos 1)))))))))

run_ends : run.done ≡ Bool.true
unfolding drain emit new_emitter
run_ends = refl

run_calls : run.callbacks ≡ record { missed = 7 ∷ []; called = 8 ∷ [] } ∷ []
unfolding drain emit new_emitter
run_calls = refl

Reach-IsDelivered_example : IsDelivered run
Reach-IsDelivered_example = Reach-IsDelivered {n = pos 1} (
    next
      (next
        (next
          (next
            (next (next (next (next start (emitted 7 _)) (drained _)) (registered _)) (emitted 8 _))
            (emitted 9 _))
          (closed _))
        (drained _))
      (drained _))
