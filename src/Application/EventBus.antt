-- ===== src/Application/EventBus.antt =====
-- internal/application/eventbus.go. A channel is a place in a heap, named by the id of the
-- subscription that made it, so that the subscriber holds it after `unsubscribe` too. Each method
-- is one step: `publish` is called by the one goroutine that listens to Matter.
pub mod Channels
pub mod Delivery
pub mod Order
pub mod Ready
pub mod Invariant
pub mod Interleaved
use manisa_app.Prelude.{
  ℕ, zero, suc, ◌+◌, ◌^◌, ◌%◌, ℤ, pos, negsuc, Bool, true, false, ◌||◌, Option, none, some, List,
  [], ◌∷◌, ◌++◌, ltb, nat_eq, length, if◌then◌else◌,
}
use manisa_app.Domain.{Time, RealtimeEvent}

-- A buffered Go channel; the oldest value stands first.
pub record Channel (F : Type 0) : Type 0 where
  pub cap : ℕ
  pub queue : List (RealtimeEvent F)

-- `select { case ch <- v: default: }`, and whether the value was sent
unfoldable pub try_send : {F : Type 0} → RealtimeEvent F → Channel F → Bool × Channel F
try_send v ch =
    if ltb (length ch.queue) ch.cap
    then (true, record ch { queue = ch.queue ++ v ∷ [] })
    else (false, ch)

-- `select { case v := <-ch: default: }`
unfoldable pub try_receive : {F : Type 0} → Channel F → Option (RealtimeEvent F) × Channel F
try_receive ch = elim ch.queue [ [] ↦ (none, ch) | v ∷ rest ↦ (some v, record ch { queue = rest }) ]

-- The body of the loop in `publish`: a full channel loses its oldest value.
unfoldable pub deliver : {F : Type 0} → RealtimeEvent F → Channel F → Channel F
deliver v ch =
    let (sent, ch') = try_send v ch in if sent then ch' else (try_send v (try_receive ch).1).1

pub record EventBus (F : Type 0) : Type 0 where
  -- the keys of `subscribers`
  pub subscribers : List ℕ
  pub channel : ℕ → Channel F
  pub next_sub_id : ℕ
  pub sequence : ℕ

abbrev pub update {ℓ} : {A : Type ℓ} → (ℕ → A) → ℕ → A → ℕ → A
update f i a j = if nat_eq i j then a else f j

abbrev pub new_event_bus : {F : Type 0} → EventBus F
new_event_bus = record {
  subscribers = [];
  channel = λ i. record { cap = 0; queue = [] };
  next_sub_id = 0;
  sequence = 0;
}

-- atomic.Uint64.Add(1)
abbrev pub add_one : ℕ → ℕ
add_one n = (n + 1) % 2 ^ 64

-- The loop of `publish`, in any order of the subscribers.
unfoldable pub publish_to :
    {F : Type 0} → List ℕ → RealtimeEvent F → (ℕ → Channel F) → ℕ → Channel F
publish_to [] event channel = channel
publish_to (i ∷ rest) event channel =
    publish_to rest event (update channel i (deliver event (channel i)))

abbrev pub stamp : {F : Type 0} → Time → ℕ → RealtimeEvent F → RealtimeEvent F
stamp now sequence event = record event {
  sequence = sequence;
  timestamp = if nat_eq event.timestamp 0 then now else event.timestamp;
}

unfoldable pub publish : {F : Type 0} → Time → RealtimeEvent F → EventBus F → EventBus F
publish now event b =
    let n = add_one b.sequence in
    record b { sequence = n; channel = publish_to b.subscribers (stamp now n event) b.channel }

-- `buffer < 1` becomes 1
abbrev pub capacity : ℤ → ℕ
capacity (pos zero) = 1
capacity (pos (suc n)) = suc n
capacity (negsuc n) = 1

abbrev pub contains : ℕ → List ℕ → Bool
contains i [] = false
contains i (j ∷ js) = nat_eq j i || contains i js

abbrev pub without : ℕ → List ℕ → List ℕ
without i [] = []
without i (j ∷ js) = let rest = without i js in if nat_eq j i then rest else j ∷ rest

-- The id of the subscription comes back, for its channel and for `unsubscribe`.
unfoldable pub subscribe : {F : Type 0} → ℤ → EventBus F → ℕ × EventBus F
subscribe buffer b =
    let id = add_one b.next_sub_id in
    (
      id,
      record b {
        next_sub_id = id;
        subscribers = id ∷ without id b.subscribers;
        channel = update b.channel id (record { cap = capacity buffer; queue = [] });
      },
    )

unfoldable pub unsubscribe : {F : Type 0} → ℕ → EventBus F → EventBus F
unsubscribe id b = record b { subscribers = without id b.subscribers }

-- The subscriber takes the next value off its channel.
unfoldable pub receive : {F : Type 0} → ℕ → EventBus F → Option (RealtimeEvent F) × EventBus F
receive id b =
    let (v, ch) = try_receive (b.channel id) in (v, record b { channel = update b.channel id ch })
