-- ===== src/Server/Broadcast/Valid.antt =====
-- internal/server/sse/broadcaster.go: the invariant of the broadcaster and its channels.
use dfgo.Prelude.{
  ℕ, zero, suc, ◌-◌, ◌≤◌, Bool, true, false, not, leb, ltb, if◌then◌else◌, List, [], ◌∷◌, ◌++◌, map,
  length, drop, length-append, length-drop, All, ◌≡◌, refl, inl, inr, Bool-cases, arith, ++_assoc,
  ++_nil,
}
use dfgo.Server.Broadcast.{
  Broadcaster, Channel, elem, touched, offer, trim_history, publish, max_history, sub_buf_size,
}

-- xs comes from ys by leaving out elements.
pub data IsSublist {E : Type 0} : List E → List E → Type 0 where
  nil : IsSublist [] []
  skip : {xs ys : List E} (y : E) → IsSublist xs ys → IsSublist xs (y ∷ ys)
  keep : {xs ys : List E} (y : E) → IsSublist xs ys → IsSublist (y ∷ xs) (y ∷ ys)

module _ {E : Type 0} where
  pub IsSublist-refl : (xs : List E) → IsSublist xs xs
  IsSublist-refl [] = nil
  IsSublist-refl (x ∷ xs) = keep x (IsSublist-refl xs)

  pub IsSublist-empty : (ys : List E) → IsSublist [] ys
  IsSublist-empty [] = nil
  IsSublist-empty (y ∷ ys) = skip y (IsSublist-empty ys)

  pub IsSublist-append :
      {xs ys us vs : List E} → IsSublist xs ys → IsSublist us vs → IsSublist (xs ++ us) (ys ++ vs)
  IsSublist-append nil k = k
  IsSublist-append (skip y h) k = skip y (IsSublist-append h k)
  IsSublist-append (keep y h) k = keep y (IsSublist-append h k)

  pub IsSublist-tail : {xs ys : List E} (x : E) → IsSublist (x ∷ xs) ys → IsSublist xs ys
  IsSublist-tail x (skip y h) = skip y (IsSublist-tail x h)
  IsSublist-tail x (keep y h) = skip y h

  pub IsSublist-drop : (n : ℕ) (xs ys : List E) → IsSublist xs ys → IsSublist (drop n xs) ys
  IsSublist-drop zero xs ys h = h
  IsSublist-drop (suc n) [] ys h = h
  IsSublist-drop (suc n) (x ∷ xs) ys h = IsSublist-drop n xs ys (IsSublist-tail x h)

-- One channel, by the ids in the map, the last id and the events taken so far.
pub record IsOk {E : Type 0} (subs : List ℕ) (last : ℕ) (events : List E) (c : Channel E)
    : Type 0 where
  pub bounded : length c.buffer ≤ sub_buf_size
  pub numbered : c.id ≤ last
  pub registered : elem c.id subs ≡ not c.is_closed
  pub safe : c.panicked ≡ false
  pub ordered : IsSublist (c.received ++ c.buffer) events

-- The history and every buffer are bounded; a channel is open exactly while its id is in the map,
-- and none has been sent to or closed once it was closed; a closed broadcaster has an empty map; and
-- what a consumer has read or can read is a part of the published events, in their order.
pub record IsValid {E : Type 0} (b : Broadcaster E) : Type 0 where
  pub history : length b.history ≤ max_history
  pub recent : IsSublist b.history b.published
  pub drained : b.closed ≡ true → b.subs ≡ []
  pub channels : All (IsOk b.subs b.next_id b.published) b.channels

pub if-elim {ℓ} :
    {A : Type ℓ} (P : A → Type 0) (b : Bool) (x y : A)
    → (b ≡ true → P x)
    → (b ≡ false → P y)
    → P (if b then x else y)
if-elim P true x y f g = f refl
if-elim P false x y f g = g refl

pub All-map {ℓ} :
    {A : Type ℓ} (P Q : A → Type 0) (f : A → A)
    → ((a : A) → P a → Q (f a))
    → (xs : List A) → All P xs
    → All Q (map f xs)
All-map P Q f g [] h = tt
All-map P Q f g (x ∷ xs) h = (g x h.0, All-map P Q f g xs h.1)

module _ {E : Type 0} where
  -- more has been published, or another id has been given out
  pub IsOk-more :
      (subs : List ℕ) (last : ℕ) (events : List E) (evt : E) (c : Channel E)
      → IsOk subs last events c
      → IsOk subs last (events ++ evt ∷ []) c
  IsOk-more subs last events evt c h = record {
    bounded = h.bounded;
    numbered = h.numbered;
    registered = h.registered;
    safe = h.safe;
    ordered =
        rw (← ++_nil (c.received ++ c.buffer))
          (IsSublist-append h.ordered (IsSublist-empty (evt ∷ [])));
  }

  -- an open channel is touched
  touched-IsOk :
      (subs : List ℕ) (last : ℕ) (events : List E) (c : Channel E)
      → c.is_closed ≡ false
      → IsOk subs last events c
      → IsOk subs last events (touched c)
  touched-IsOk subs last events c live h = record {
    bounded = h.bounded;
    numbered = h.numbered;
    registered = h.registered;
    safe = let k = h.safe in ground (arith, k, live);
    ordered = h.ordered;
  }

  pub offer-IsOk :
      (subs : List ℕ) (last : ℕ) (events : List E) (evt : E) (c : Channel E)
      → c.is_closed ≡ false
      → IsOk subs last events c
      → IsOk subs last (events ++ evt ∷ []) (offer evt c)
  offer-IsOk subs last events evt c live h =
      elim (Bool-cases (ltb (length c.buffer) sub_buf_size)) [
        | inl room ↦ rw room (record {
          bounded = ground (arith, room, length-append c.buffer (evt ∷ []));
          numbered = h.numbered;
          registered = h.registered;
          safe = (touched-IsOk subs last events c live h).safe;
          ordered =
              rw (← ++_assoc c.received c.buffer (evt ∷ []))
                (IsSublist-append h.ordered (IsSublist-refl (evt ∷ [])));
        })
        | inr full ↦
            rw full
              (IsOk-more subs last events evt (touched c) (touched-IsOk subs last events c live h))
      ]

  trim_history-bound : (h : List E) → length (trim_history h) ≤ max_history
  trim_history-bound h = elim (Bool-cases (leb (length h) max_history)) [
    | inl few ↦ rw few (ground (arith, few))
    | inr many ↦ rw many (ground (arith, many, length-drop (length h - max_history) h))
  ]

  trim_history-IsSublist : (h ys : List E) → IsSublist h ys → IsSublist (trim_history h) ys
  trim_history-IsSublist h ys k = elim (Bool-cases (leb (length h) max_history)) [
    | inl few ↦ rw few k
    | inr many ↦ rw many (IsSublist-drop (length h - max_history) h ys k)
  ]

  pub open_when_in :
      {subs : List ℕ} {last : ℕ} {events : List E} {c : Channel E}
      → IsOk subs last events c
      → elem c.id subs ≡ true
      → c.is_closed ≡ false
  open_when_in k reg = let r = k.registered in ground (arith, r, reg)

  pub publish-IsValid : (evt : E) (b : Broadcaster E) → IsValid b → IsValid (publish evt b)
  unfolding publish
  publish-IsValid evt b h =
      if-elim IsValid b.closed _ _ (λ over. h)
        (λ live. record {
          history = trim_history-bound (b.history ++ evt ∷ []);
          recent =
              trim_history-IsSublist _ _ (IsSublist-append h.recent (IsSublist-refl (evt ∷ [])));
          drained = λ e. h.drained e;
          channels =
              All-map _ _ _
                (λ c k.
                  if-elim (IsOk b.subs b.next_id (b.published ++ evt ∷ [])) (elem c.id b.subs) _ _
                    (λ reg. offer-IsOk b.subs b.next_id b.published evt c (open_when_in k reg) k)
                    (λ no. IsOk-more b.subs b.next_id b.published evt c k))
                b.channels h.channels;
        })
