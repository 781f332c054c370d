-- ===== src/HttpApi/Events/Unsubscribed.antt =====
-- The subscription of a stream of serveEvents (internal/httpapi/router.go), until the handler returns.
use manisa_app.Prelude.{
  ℕ, ◌≡◌, Bool, true, false, not, List, [], ◌∷◌, arith, if◌then◌else◌, inl, inr, Option-cases,
}
use manisa_app.Domain.{RealtimeEvent}
use manisa_app.Application.EventBus.{EventBus, contains, publish, unsubscribe, receive}
use manisa_app.Application.EventBus.Ready.{contains-without}
use manisa_app.HttpApi.Events.{
  Turn, closes, takes, publishes, Served, after_write, leave, serve_turns,
}

module _ {F : Type 0} where
  left : (id : ℕ) (b : EventBus F) → contains id (unsubscribe id b).subscribers ≡ false
  unfolding unsubscribe
  left id b = ground (arith, contains-without id id b.subscribers)

  written_or_left :
      (id : ℕ) (is_written : Bool) (v : RealtimeEvent F) (b : EventBus F) (s : Served F)
      → contains id s.bus.subscribers ≡ not s.returned
      → let r = if is_written then after_write v s else leave id b in
        contains id r.bus.subscribers ≡ not r.returned
  written_or_left id true v b s h = h
  written_or_left id false v b s h = left id b

  -- However the stream goes, its subscription is there as long as the handler has not returned, and is
  -- gone when it has.
  pub serve_turns_unsubscribes :
      (id : ℕ) (turns : List (Turn F)) (b : EventBus F)
      → contains id b.subscribers ≡ true
      → contains id (serve_turns id turns b).bus.subscribers ≡ not (serve_turns id turns b).returned
  unfolding serve_turns
  serve_turns_unsubscribes id [] b t = t
  serve_turns_unsubscribes id (closes ∷ more) b t = left id b
  serve_turns_unsubscribes id (publishes now event ∷ more) b t =
      serve_turns_unsubscribes id more (publish now event b) (unfold publish in t)
  serve_turns_unsubscribes id (takes is_written ∷ more) b t = elim (Option-cases (receive id b).0) [
    | inl empty ↦ rw (serve_turns, empty) (serve_turns_unsubscribes id more b t)
    | inr (v, taken) ↦
        rw (serve_turns, taken)
          (written_or_left id is_written v (receive id b).1 _
            (serve_turns_unsubscribes id more (receive id b).1 (unfold receive in t)))
  ]
