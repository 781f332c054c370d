-- ===== src/Application/EventBus/Invariant.antt =====
-- Every bus that the methods can make is well formed.
use manisa_app.Prelude.{
  ℕ, zero, suc, ◌+◌, ◌≤◌, ◌<◌, ◌^◌, ◌≡◌, refl, ◌∙◌, ℤ, true, List, [], ◌∷◌, ◌++◌, arith, drop,
  nat_eq, inl, inr, Bool-cases,
}
use manisa_app.Domain.{Time, RealtimeEvent}
use manisa_app.Application.EventBus.{
  Channel, EventBus, add_one, stamp, contains, publish, subscribe, unsubscribe, receive,
  new_event_bus,
}
use manisa_app.Application.EventBus.Ready.{
  contains-without, received, subscribe-IsReady, unsubscribe-IsReady, receive-IsReady, new-IsReady,
}
use manisa_app.Application.EventBus.Channels.{keep_last}
use manisa_app.Application.EventBus.Delivery.{IsReady, publish_delivers, publish-IsReady}

module _ {F : Type 0} where
  -- The sequence numbers grow strictly from above `lo`, up to `hi` at most.
  abbrev pub Between : ℕ → List (RealtimeEvent F) → ℕ → Type 0
  Between lo [] hi = lo ≤ hi
  Between lo (v ∷ vs) hi = (lo < v.sequence) × Between v.sequence vs hi

  Between-weaken :
      (lo lo' hi hi' : ℕ) (vs : List (RealtimeEvent F))
      → lo' ≤ lo
      → hi ≤ hi'
      → Between lo vs hi
      → Between lo' vs hi'
  Between-weaken lo lo' hi hi' [] l h b = omega arith
  Between-weaken lo lo' hi hi' (v ∷ vs) l h b =
      (omega arith, Between-weaken v.sequence v.sequence hi hi' vs (omega arith) h b.1)

  Between-le : (lo hi : ℕ) (vs : List (RealtimeEvent F)) → Between lo vs hi → lo ≤ hi
  Between-le lo hi [] b = b
  Between-le lo hi (v ∷ vs) b = omega (arith, Between-le v.sequence hi vs b.1)

  Between-concat :
      (lo hi : ℕ) (vs : List (RealtimeEvent F)) (v : RealtimeEvent F)
      → Between lo vs hi
      → hi < v.sequence
      → Between lo (vs ++ v ∷ []) v.sequence
  Between-concat lo hi [] v b h = (omega arith, omega arith)
  Between-concat lo hi (w ∷ vs) v b h = (b.0, Between-concat w.sequence hi vs v b.1 h)

  Between-drop :
      (n lo hi : ℕ) (vs : List (RealtimeEvent F)) → Between lo vs hi → Between lo (drop n vs) hi
  Between-drop zero lo hi vs b = b
  Between-drop (suc n) lo hi [] b = b
  Between-drop (suc n) lo hi (v ∷ vs) b =
      Between-drop n lo hi vs
        (Between-weaken v.sequence lo hi hi vs (omega arith) (omega arith) b.1)

  -- What holds of every bus: subscriptions are distinct and have had their ids given out, their
  -- channels have room and hold no more than fits, and the events on every channel, registered or
  -- not, stand in the order of their sequence numbers, none above the bus's.
  pub record IsBus (b : EventBus F) : Type 0 where
    pub ready : IsReady b
    pub given : (i : ℕ) → contains i b.subscribers ≡ true → i ≤ b.next_sub_id
    pub ordered : (i : ℕ) → Between 0 (b.channel i).queue b.sequence

  -- The methods, and the subscriber's receive. The counters are uint64; neither wraps.
  pub data Step : EventBus F → EventBus F → Type 0 where
    publishes :
        (now : Time) (e : RealtimeEvent F) (b : EventBus F)
        → b.sequence + 1 < 2 ^ 64
        → Step b (publish now e b)
    subscribes :
        (buffer : ℤ) (b : EventBus F) → b.next_sub_id + 1 < 2 ^ 64 → Step b (subscribe buffer b).1
    unsubscribes : (i : ℕ) (b : EventBus F) → Step b (unsubscribe i b)
    receives : (i : ℕ) (b : EventBus F) → Step b (receive i b).1

  pub data Reach : EventBus F → Type 0 where
    start : Reach new_event_bus
    next : {b c : EventBus F} → Reach b → Step b c → Reach c

  Between-channel : (c d : Channel F) (hi : ℕ) → c ≡ d → Between 0 d.queue hi → Between 0 c.queue hi
  Between-channel c d hi e h = rw e h

  publish-Between :
      (now : Time) (e : RealtimeEvent F) (b : EventBus F) (i : ℕ)
      → b.sequence + 1 < 2 ^ 64
      → IsBus b
      → Between 0 ((publish now e b).channel i).queue (add_one b.sequence)
  publish-Between now e b i h ok =
      let after : b.sequence < add_one b.sequence = omega arith in
      let v = stamp now (add_one b.sequence) e in
      elim (Bool-cases (contains i b.subscribers)) [
        | inl t ↦
            Between-channel _
              (record (b.channel i) {
                queue = keep_last (b.channel i).cap ((b.channel i).queue ++ v ∷ []);
              })
              _ (publish_delivers now e b i ok.ready ∙ (rw t refl))
              (Between-drop _ 0 (add_one b.sequence) ((b.channel i).queue ++ v ∷ [])
                (Between-concat 0 b.sequence (b.channel i).queue v (ok.ordered i) after))
        | inr f ↦
            Between-channel _ (b.channel i) _ (publish_delivers now e b i ok.ready ∙ (rw f refl)) (
              Between-weaken 0 0 b.sequence (add_one b.sequence) (b.channel i).queue (omega arith)
                (omega arith) (ok.ordered i))
      ]

  publish-IsBus :
      (now : Time) (e : RealtimeEvent F) (b : EventBus F)
      → b.sequence + 1 < 2 ^ 64
      → IsBus b
      → IsBus (publish now e b)
  publish-IsBus now e b h ok = record {
    ready = publish-IsReady now e b ok.ready;
    given = unfold publish in ok.given;
    ordered = λ i. unfold publish in publish-Between now e b i h ok;
  }

  subscribe-IsBus :
      (buffer : ℤ) (b : EventBus F)
      → b.next_sub_id + 1 < 2 ^ 64
      → IsBus b
      → IsBus (subscribe buffer b).1
  unfolding subscribe
  subscribe-IsBus buffer b h ok =
      let id = add_one b.next_sub_id in
      let kept = λ (j : ℕ). contains-without id j b.subscribers in
      record {
        ready = subscribe-IsReady buffer b ok.ready;
        given = λ j t. ground (arith, kept j, ok.given j);
        ordered = λ j. elim (Bool-cases (nat_eq id j)) [
          | inl e ↦ rw e (omega arith)
          | inr e ↦ rw e (ok.ordered j)
        ];
      }

  unsubscribe-IsBus : (i : ℕ) (b : EventBus F) → IsBus b → IsBus (unsubscribe i b)
  unfolding unsubscribe
  unsubscribe-IsBus i b ok = record {
    ready = unsubscribe-IsReady i b ok.ready;
    given = λ j t. ok.given j (ground (arith, contains-without i j b.subscribers));
    ordered = ok.ordered;
  }

  received-Between :
      (cap : ℕ) (q : List (RealtimeEvent F)) (hi : ℕ)
      → Between 0 q hi
      → Between 0 (received cap q).queue hi
  unfolding received
  received-Between cap [] hi b = b
  received-Between cap (v ∷ q) hi b =
      Between-weaken v.sequence 0 hi hi q (omega arith) (omega arith) b.1

  receive-IsBus : (i : ℕ) (b : EventBus F) → IsBus b → IsBus (receive i b).1
  unfolding receive received
  receive-IsBus i b ok = record {
    ready = receive-IsReady i b ok.ready;
    given = ok.given;
    ordered = λ j. elim (Bool-cases (nat_eq i j)) [
      | inl e ↦
          rw e (received-Between (b.channel i).cap (b.channel i).queue b.sequence (ok.ordered i))
      | inr e ↦ rw e (ok.ordered j)
    ];
  }

  Step-IsBus : {b c : EventBus F} → Step b c → IsBus b → IsBus c
  Step-IsBus (publishes now e b h) ok = publish-IsBus now e b h ok
  Step-IsBus (subscribes buffer b h) ok = subscribe-IsBus buffer b h ok
  Step-IsBus (unsubscribes i b) ok = unsubscribe-IsBus i b ok
  Step-IsBus (receives i b) ok = receive-IsBus i b ok

  new-IsBus : IsBus new_event_bus
  new-IsBus = record { ready = new-IsReady; given = λ i t. cc; ordered = λ i. omega arith }

  -- Every bus that the methods reach from a new one, with counters that do not wrap, is well formed:
  -- no channel holds more than fits, and a subscriber sees events in the order in which they were
  -- numbered.
  pub Reach-IsBus : {b : EventBus F} → Reach b → IsBus b
  Reach-IsBus start = new-IsBus
  Reach-IsBus (next r s) = Step-IsBus s (Reach-IsBus r)
