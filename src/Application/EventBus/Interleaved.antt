-- ===== src/Application/EventBus/Interleaved.antt =====
-- `publish` of internal/application/eventbus.go beside a subscriber that receives at the same time: the
-- two selects of a full channel, and the one that drains it, are three steps, and values may be taken in
-- between.
use manisa_app.Prelude.{
  ℕ, zero, suc, ◌+◌, ◌≡◌, refl, inl, inr, true, List, [], ◌∷◌, ◌++◌, arith, drop, length,
  length-append, ltb, Bool-cases, if◌then◌else◌,
}
use manisa_app.Domain.{RealtimeEvent}
use manisa_app.Application.EventBus.{Channel, try_send, try_receive}
use manisa_app.Application.EventBus.Channels.{IsChannel, length-drop, drop-drop}

module _ {F : Type 0} where
  -- so many values are received
  unfoldable pub receive_many : ℕ → Channel F → Channel F
  receive_many zero ch = ch
  receive_many (suc n) ch = receive_many n (try_receive ch).1

  -- The body of the loop in `publish`, where the subscriber takes `a` values before the channel is
  -- drained and `b` values after.
  unfoldable pub deliver_between : ℕ → ℕ → RealtimeEvent F → Channel F → Channel F
  deliver_between a b v ch =
      let (sent, ch') = try_send v ch in
      if sent then ch' else (try_send v (receive_many b (try_receive (receive_many a ch')).1)).1

  received_at :
      (cap : ℕ) (q : List (RealtimeEvent F))
      → (try_receive (record { cap = cap; queue = q })).1 ≡ record { cap = cap; queue = drop 1 q }
  unfolding try_receive
  received_at cap [] = refl
  received_at cap (x ∷ q) = refl

  receive_many_at :
      (n cap : ℕ) (q : List (RealtimeEvent F))
      → receive_many n (record { cap = cap; queue = q }) ≡ record { cap = cap; queue = drop n q }
  unfolding receive_many
  receive_many_at zero cap q = refl
  receive_many_at (suc n) cap q =
      rw
        (received_at cap q, receive_many_at n cap (drop 1 q), drop-drop n 1 (suc n) q (omega arith))
        refl

  -- what is left of a full channel when the second select sends
  drained :
      (a b cap : ℕ) (q : List (RealtimeEvent F))
      → receive_many b (try_receive (receive_many a (record { cap = cap; queue = q }))).1
        ≡ record { cap = cap; queue = drop (a + 1 + b) q }
  drained a b cap q =
      rw
        (
          receive_many_at a cap q,
          received_at cap (drop a q),
          receive_many_at b cap (drop 1 (drop a q)),
          drop-drop 1 a (a + 1) q refl,
          drop-drop b (a + 1) (a + 1 + b) q refl,
        )
        refl

  -- However many values the subscriber takes while `publish` makes room, the new value is on its channel
  -- in the end, after what is left of the older ones: with room at first, all of them, and otherwise all
  -- but the oldest, which are those that the subscriber took and one that is dropped. The channel
  -- does not hold more than fits.
  pub deliver_between_lem :
      (a b : ℕ) (v : RealtimeEvent F) (ch : Channel F)
      → IsChannel ch
      → (deliver_between a b v ch ≡ record ch {
        queue =
            (if ltb (length ch.queue) ch.cap then ch.queue else drop (a + 1 + b) ch.queue)
            ++ v ∷ [];
      })
        × IsChannel (deliver_between a b v ch)
  unfolding deliver_between try_send
  deliver_between_lem a b v ch ok = elim (Bool-cases (ltb (length ch.queue) ch.cap)) [
    | inl t ↦
        let longer = length-append ch.queue (v ∷ []) in
        rw (t) (refl, record { room = ok.room; fits = ground (arith, longer) })
    | inr f ↦
        let rest = drop (a + 1 + b) ch.queue in
        let shorter = length-drop (a + 1 + b) ch.queue in
        let room : ltb (length rest) ch.cap ≡ true = ground (arith, ok.fits, ok.room) in
        let longer = length-append rest (v ∷ []) in
        rw (f, drained a b ch.cap ch.queue, room)
          (refl, record { room = ok.room; fits = ground (arith, longer) })
  ]
