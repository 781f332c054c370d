-- ===== src/HttpApi/Events/Waits.antt =====
-- The queue of one subscription of the event bus, as a stream of serveEvents
-- (internal/httpapi/router.go) sees it.
use manisa_app.Prelude.{
  ℕ, suc, ◌-◌, ◌≤◌, ◌<◌, ◌≡◌, refl, ap, ◌∙◌, pos, true, none, some, List, [], ◌∷◌, ◌++◌, arith,
  length, length-append, nat_eq,
}
use manisa_app.Domain.{Time, RealtimeEvent}
use manisa_app.Application.EventBus.{
  EventBus, Channel, update, add_one, stamp, contains, publish, subscribe, receive, try_receive,
}
use manisa_app.Application.EventBus.Channels.{keep_last_all}
use manisa_app.Application.EventBus.Delivery.{
  IsReady, publish-IsReady, publish-queue, publish_delivers,
}
use manisa_app.Application.EventBus.Ready.{receive-IsReady, subscribe-IsReady}

module _ {F : Type 0} where
  abbrev pub queue_of : ℕ → EventBus F → List (RealtimeEvent F)
  queue_of id b = (b.channel id).queue

  pub receive-none : (id : ℕ) (b : EventBus F) → queue_of id b ≡ [] → (receive id b).0 ≡ none
  unfolding receive try_receive
  receive-none id b e = rw e refl

  update-same : (f : ℕ → Channel F) (i : ℕ) (ch : Channel F) → update f i ch i ≡ ch
  update-same f i ch = ground arith

  receive-some :
      (id : ℕ) (b : EventBus F) (v : RealtimeEvent F) (rest : List (RealtimeEvent F))
      → queue_of id b ≡ v ∷ rest
      → ((receive id b).0 ≡ some v)
        × (queue_of id (receive id b).1 ≡ rest)
        × (((receive id b).1.channel id).cap ≡ (b.channel id).cap)
        × ((receive id b).1.subscribers ≡ b.subscribers)
        × ((receive id b).1.sequence ≡ b.sequence)
  unfolding receive try_receive
  receive-some id b v rest e =
      let at : (receive id b).1.channel id ≡ (try_receive (b.channel id)).1 =
        update-same b.channel id (try_receive (b.channel id)).1 in
      (
        rw e refl,
        ap (λ (ch : Channel F). ch.queue) at ∙ (rw e refl),
        ap (λ (ch : Channel F). ch.cap) at ∙ (rw e refl),
        refl,
        refl,
      )

  publish-cap :
      (now : Time) (event : RealtimeEvent F) (b : EventBus F) (id : ℕ)
      → IsReady b
      → contains id b.subscribers ≡ true
      → ((publish now event b).channel id).cap ≡ (b.channel id).cap
  publish-cap now event b id ready t =
      ap (λ (ch : Channel F). ch.cap) (publish_delivers now event b id ready) ∙ (rw t refl)

  -- The queue of the stream's subscription and its length, in a bus where it is registered.
  pub record Waits (id limit n m : ℕ) (q : List (RealtimeEvent F)) (b : EventBus F) : Type 0 where
    pub ready : IsReady b
    pub registered : contains id b.subscribers ≡ true
    pub room : (b.channel id).cap ≡ limit
    pub numbered : b.sequence ≡ m
    pub queued : queue_of id b ≡ q
    pub counted : length q ≡ n

  pub publish-Waits :
      (now : Time) (event : RealtimeEvent F) (id limit n m : ℕ) (q : List (RealtimeEvent F))
      (b : EventBus F)
      → n < limit
      → Waits id limit n m q b
      → Waits id limit
          (suc n)
          (add_one m)
          (q ++ stamp now (add_one m) event ∷ [])
          (publish now event b)
  publish-Waits now event id limit n m q b lt w =
      let v = stamp now (add_one b.sequence) event in
      let longer = length-append (queue_of id b) (v ∷ []) in
      let fits : length (queue_of id b ++ v ∷ []) ≤ (b.channel id).cap =
        omega (arith, longer, w.room, w.counted, ap length w.queued) in
      record {
        ready = publish-IsReady now event b w.ready;
        registered = unfold publish in w.registered;
        room = publish-cap now event b id w.ready w.registered ∙ w.room;
        numbered = unfold publish in ap add_one w.numbered;
        queued =
            publish-queue now event b id w.ready w.registered
            ∙ keep_last_all _ _ fits
            ∙ (rw (w.queued, w.numbered) refl);
        counted = omega (arith, length-append q (stamp now (add_one m) event ∷ []), w.counted);
      }

  pub receive-Waits :
      (id limit n m : ℕ) (v : RealtimeEvent F) (rest : List (RealtimeEvent F)) (b : EventBus F)
      → Waits id limit n m (v ∷ rest) b
      → ((receive id b).0 ≡ some v) × Waits id limit (n - 1) m rest (receive id b).1
  receive-Waits id limit n m v rest b w =
      let (taken, queued, room, same, sequence) = receive-some id b v rest w.queued in
      (
        taken,
        record {
          ready = receive-IsReady id b w.ready;
          registered = ap (contains id) same ∙ w.registered;
          room = room ∙ w.room;
          numbered = sequence ∙ w.numbered;
          queued = queued;
          counted = omega (arith, w.counted);
        },
      )

  pub subscribe-Waits :
      (b : EventBus F)
      → IsReady b
      → Waits (subscribe (pos 128) b).0 128 0 b.sequence [] (subscribe (pos 128) b).1
  subscribe-Waits b ready =
      let id = add_one b.next_sub_id in
      let self : nat_eq id id ≡ true = ground arith in
      let at = update-same b.channel id (record { cap = 128; queue = [] }) in
      record {
        ready = subscribe-IsReady (pos 128) b ready;
        registered = unfold subscribe in ground arith;
        room = unfold subscribe in ap (λ (ch : Channel F). ch.cap) at;
        numbered = unfold subscribe in refl;
        queued = unfold subscribe in ap (λ (ch : Channel F). ch.queue) at;
        counted = refl;
      }
