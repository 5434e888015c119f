-- ===== src/Server/Broadcast/Replay.antt =====
-- internal/server/sse/broadcaster.go: the history that a new subscriber gets.
use dfgo.Prelude.{
  ℕ, zero, suc, ◌+◌, ◌≤◌, true, false, ltb, List, [], ◌∷◌, ◌++◌, length, length-append, take, ◌≡◌,
  refl, sym, ap, ◌∙◌, arith, ++_assoc, ++_nil,
}
use dfgo.Server.Broadcast.{
  Broadcaster, Channel, touched, offer, close_channel, replay, subscribe, sub_buf_size,
}
use dfgo.Server.Broadcast.Valid.{if-elim}

take_nil : {A : Type 0} (n : ℕ) → take {A = A} n [] ≡ []
take_nil zero = refl
take_nil (suc n) = refl

module _ {E : Type 0} where
  -- a full channel takes nothing more
  replay_full :
      (h : List E) (c : Channel E) → sub_buf_size ≤ length c.buffer → (replay h c).buffer ≡ c.buffer
  replay_full [] c full = refl
  replay_full (evt ∷ h) c full =
      let shut : ltb (length c.buffer) sub_buf_size ≡ false = ground (arith, full) in
      let same : offer evt c ≡ touched c = rw shut refl in
      ap (λ x. (replay h x).buffer) same ∙ replay_full h (touched c) full

  replay-take :
      (room : ℕ) (h : List E) (c : Channel E)
      → length c.buffer + room ≡ sub_buf_size
      → (replay h c).buffer ≡ c.buffer ++ take room h
  replay-take zero h c e = replay_full h c (omega (arith, e)) ∙ sym (++_nil c.buffer)
  replay-take (suc room) [] c e = sym (++_nil c.buffer)
  replay-take (suc room) (evt ∷ h) c e =
      let free : ltb (length c.buffer) sub_buf_size ≡ true = ground (arith, e) in
      let d : Channel E = record (touched c) { buffer = c.buffer ++ evt ∷ [] } in
      let same : offer evt c ≡ d = rw free refl in
      ap (λ x. (replay h x).buffer) same
      ∙ replay-take room h d (omega (arith, e, length-append c.buffer (evt ∷ [])))
      ∙ ++_assoc c.buffer (evt ∷ []) (take room h)

  head-tail : (c d : Channel E) (cs ds : List (Channel E)) → c ∷ cs ≡ d ∷ ds → (c ≡ d) × (cs ≡ ds)
  head-tail c d cs ds e = (cc, cc)

  -- Subscribe adds one channel, in front of the others here, which holds the first 64 events of the
  -- history, the oldest, and none of the later ones: what the history has beyond 64 events is not
  -- replayed.
  pub subscribe-take :
      (b : Broadcaster E) (c : Channel E) (rest : List (Channel E))
      → (subscribe b).channels ≡ c ∷ rest
      → (c.buffer ≡ take sub_buf_size b.history) × (rest ≡ b.channels)
  unfolding subscribe
  subscribe-take b c rest e =
      let ch : Channel E = replay b.history (record {
        id = suc b.next_id;
        buffer = [];
        is_closed = false;
        panicked = false;
        received = [];
      }) in
      let replayed : ch.buffer ≡ take sub_buf_size b.history =
        replay-take sub_buf_size b.history _ (omega arith) in
      if-elim
        (λ (x : Broadcaster E).
          x.channels ≡ c ∷ rest → (c.buffer ≡ take sub_buf_size b.history) × (rest ≡ b.channels))
        b.closed _ _
        (λ over p.
          let (h, t) = head-tail (close_channel ch) c b.channels rest p in
          (ap (λ x. x.buffer) (sym h) ∙ replayed, sym t))
        (λ live p.
          let (h, t) = head-tail ch c b.channels rest p in
          (ap (λ x. x.buffer) (sym h) ∙ replayed, sym t))
        e
