-- ===== src/HttpApi/Events.antt =====
-- serveEvents of internal/httpapi/router.go, after the websocket handshake: the events of a subscription
-- are written to the socket.
pub mod Waits
pub mod Written
pub mod Unsubscribed
use manisa_app.Prelude.{
  ℕ, suc, ◌-◌, ◌<◌, pos, Bool, true, false, none, some, List, [], ◌∷◌, if◌then◌else◌,
}
use manisa_app.Domain.{Time, RealtimeEvent}
use manisa_app.Application.EventBus.{EventBus, publish, subscribe, unsubscribe, receive}

-- What comes next: the loop's select chooses the context, which is done, or it chooses the channel and
-- the value that it takes is written, or cannot be; and in between another goroutine publishes.
pub data Turn (F : Type 0) : Type 0 where
  closes : Turn F
  takes : (is_written : Bool) → Turn F
  publishes : Time → RealtimeEvent F → Turn F

-- What was written, whether the handler has returned, and the bus.
pub record Served (F : Type 0) : Type 0 where
  pub written : List (RealtimeEvent F)
  pub returned : Bool
  pub bus : EventBus F

module _ {F : Type 0} where
  abbrev pub after_write : RealtimeEvent F → Served F → Served F
  after_write v s = record s { written = v ∷ s.written }

  -- the end of the handler, which unsubscribes
  abbrev pub leave : ℕ → EventBus F → Served F
  leave id b = record { written = []; returned = true; bus = unsubscribe id b }

  -- The loop. A channel that is empty blocks.
  unfoldable pub serve_turns : ℕ → List (Turn F) → EventBus F → Served F
  serve_turns id [] b = record { written = []; returned = false; bus = b }
  serve_turns id (closes ∷ more) b = leave id b
  serve_turns id (publishes now event ∷ more) b = serve_turns id more (publish now event b)
  serve_turns id (takes is_written ∷ more) b =
      let (taken, b') = receive id b in
      let blocked = serve_turns id more b in
      let later = serve_turns id more b' in
      elim taken [
        | none ↦ blocked
        | some v ↦ if is_written then after_write v later else leave id b'
      ]

  unfoldable pub serve_events : List (Turn F) → EventBus F → Served F
  serve_events turns b = let (id, b') = subscribe (pos 128) b in serve_turns id turns b'

  -- the events that are published meanwhile
  abbrev pub published : List (Turn F) → List (Time × RealtimeEvent F)
  published [] = []
  published (publishes now event ∷ more) = (now, event) ∷ published more
  published (turn ∷ more) = published more

  -- The socket stays open and can be written to, and at no time are more than `limit` events waiting, if
  -- `n` are at first.
  abbrev pub KeepsUp : ℕ → ℕ → List (Turn F) → Type 0
  KeepsUp limit n [] = Unit
  KeepsUp limit n (closes ∷ more) = ⊥
  KeepsUp limit n (takes true ∷ more) = KeepsUp limit (n - 1) more
  KeepsUp limit n (takes false ∷ more) = ⊥
  KeepsUp limit n (publishes now event ∷ more) = (n < limit) × KeepsUp limit (suc n) more

  -- how many are waiting in the end
  abbrev pub waiting : ℕ → List (Turn F) → ℕ
  waiting n [] = n
  waiting n (closes ∷ more) = n
  waiting n (takes is_written ∷ more) = waiting (n - 1) more
  waiting n (publishes now event ∷ more) = waiting (suc n) more
