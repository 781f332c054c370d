-- ===== src/Application/EventBus/Ready.antt =====
-- Every method of the bus keeps the subscriptions distinct and the channels within bounds, also when a
-- counter wraps.
use manisa_app.Prelude.{
  ℕ, zero, suc, ◌<◌, ◌≡◌, ℤ, pos, negsuc, true, false, List, [], ◌∷◌, arith, nat_eq, nat_eq_iff,
  if◌then◌else◌, inl, inr, Bool-cases,
}
use manisa_app.Domain.{RealtimeEvent}
use manisa_app.Application.EventBus.{
  Channel, EventBus, add_one, contains, without, capacity, subscribe, unsubscribe, receive,
  try_receive, new_event_bus,
}
use manisa_app.Application.EventBus.Channels.{IsChannel}
use manisa_app.Application.EventBus.Delivery.{Distinct, IsReady}

pub contains-without :
    (i j : ℕ) (is : List ℕ)
    → contains j (without i is) ≡ (if nat_eq i j then false else contains j is)
contains-without i j [] = ground arith
contains-without i j (k ∷ is) = ground (arith, contains-without i j is)

without-Distinct : (i : ℕ) (is : List ℕ) → Distinct is → Distinct (without i is)
without-Distinct i [] d = tt
without-Distinct i (k ∷ is) d = ground (arith, without-Distinct i is d.1, contains-without i k is)

capacity_pos : (buffer : ℤ) → 0 < capacity buffer
capacity_pos (pos zero) = omega arith
capacity_pos (pos (suc n)) = omega arith
capacity_pos (negsuc n) = omega arith

module _ {F : Type 0} where
  pub subscribe-IsReady : (buffer : ℤ) (b : EventBus F) → IsReady b → IsReady (subscribe buffer b).1
  unfolding subscribe
  subscribe-IsReady buffer b ready =
      let id = add_one b.next_sub_id in
      let kept = λ (j : ℕ). contains-without id j b.subscribers in
      record {
        distinct = (ground (arith, kept id), without-Distinct id b.subscribers ready.distinct);
        channels = λ j t. elim (Bool-cases (nat_eq id j)) [
          | inl e ↦ rw e (record { room = capacity_pos buffer; fits = omega arith })
          | inr e ↦ rw e (ready.channels j (ground (arith, kept j)))
        ];
      }

  pub unsubscribe-IsReady : (i : ℕ) (b : EventBus F) → IsReady b → IsReady (unsubscribe i b)
  unfolding unsubscribe
  unsubscribe-IsReady i b ready = record {
    distinct = without-Distinct i b.subscribers ready.distinct;
    channels = λ j t. ready.channels j (ground (arith, contains-without i j b.subscribers));
  }

  unfoldable pub received : (cap : ℕ) (q : List (RealtimeEvent F)) → Channel F
  unfolding try_receive
  received cap q = (try_receive (record { cap = cap; queue = q })).1

  received-IsChannel :
      (cap : ℕ) (q : List (RealtimeEvent F))
      → IsChannel (record { cap = cap; queue = q })
      → IsChannel (received cap q)
  unfolding received
  received-IsChannel cap [] ok = ok
  received-IsChannel cap (v ∷ q) ok = record { room = ok.room; fits = omega (arith, ok.fits) }

  pub receive-IsReady : (i : ℕ) (b : EventBus F) → IsReady b → IsReady (receive i b).1
  unfolding receive received
  receive-IsReady i b ready = record {
    distinct = ready.distinct;
    channels = λ j t. elim (Bool-cases (nat_eq i j)) [
      | inl e ↦
          let t' : contains i b.subscribers ≡ true = rw ((nat_eq_iff i j).0 e) t in
          rw e (received-IsChannel (b.channel i).cap (b.channel i).queue (ready.channels i t'))
      | inr e ↦ rw e (ready.channels j t)
    ];
  }

  pub new-IsReady : IsReady {F = F} new_event_bus
  new-IsReady = record { distinct = tt; channels = λ i t. cc }
