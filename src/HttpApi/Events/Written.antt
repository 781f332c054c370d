-- ===== src/HttpApi/Events/Written.antt =====
-- What a stream of serveEvents (internal/httpapi/router.go) writes to a client that keeps up.
use manisa_app.Prelude.{
  ℕ, suc, ◌-◌, ◌≡◌, refl, sym, ap, ◌∙◌, true, false, List, [], ◌∷◌, ◌++◌, arith, length,
}
use mathlib.Core.List.{append_assoc, append-nil}
use manisa_app.Domain.{RealtimeEvent}
use manisa_app.Application.EventBus.{EventBus, add_one, stamp, publish, receive}
use manisa_app.Application.EventBus.Delivery.{IsReady, stamp_all}
use manisa_app.HttpApi.Events.{
  Turn, closes, takes, publishes, Served, after_write, serve_turns, serve_events, published,
  KeepsUp, waiting,
}
use manisa_app.HttpApi.Events.Waits.{
  Waits, receive-none, receive-Waits, publish-Waits, subscribe-Waits, queue_of,
}

no_elements : {A : Type 0} (xs : List A) → length xs ≡ 0 → xs ≡ []
no_elements [] e = refl
no_elements (x ∷ xs) e = absurd (omega arith)

module _ {F : Type 0} where
  -- what a stream that keeps up has written and left
  record Kept (id : ℕ) (all : List (RealtimeEvent F)) (left : ℕ) (s : Served F) : Type 0 where
    whole : s.written ++ queue_of id s.bus ≡ all
    left_over : length (queue_of id s.bus) ≡ left
    stays : s.returned ≡ false

  after_write-Kept :
      (id : ℕ) (v : RealtimeEvent F) (all : List (RealtimeEvent F)) (left : ℕ) (s : Served F)
      → Kept id all left s
      → Kept id (v ∷ all) left (after_write v s)
  after_write-Kept id v all left s k = record {
    whole = ap (λ xs. v ∷ xs) k.whole;
    left_over = k.left_over;
    stays = k.stays;
  }

  serve_turns-Kept :
      (id limit n m : ℕ) (turns : List (Turn F)) (q : List (RealtimeEvent F)) (b : EventBus F)
      → Waits id limit n m q b
      → KeepsUp limit n turns
      → Kept id (q ++ stamp_all m (published turns)) (waiting n turns) (serve_turns id turns b)
  unfolding serve_turns stamp_all
  serve_turns-Kept id limit n m [] q b w k = record {
    whole = w.queued ∙ sym (append-nil q);
    left_over = ap length w.queued ∙ w.counted;
    stays = refl;
  }
  serve_turns-Kept id limit n m (closes ∷ more) q b w k = absurd k
  serve_turns-Kept id limit n m (takes false ∷ more) q b w k = absurd k
  serve_turns-Kept id limit n m (publishes now event ∷ more) q b w (room, k) =
      let v = stamp now (add_one m) event in
      let later =
        serve_turns-Kept id limit (suc n) (add_one m) more (q ++ v ∷ []) (publish now event b)
          (publish-Waits now event id limit n m q b room w) k in
      rw (← append_assoc q (v ∷ []) (stamp_all (add_one m) (published more))) later
  serve_turns-Kept id limit n m (takes true ∷ more) [] b w k =
      let still : Waits id limit (n - 1) m [] b = record {
        ready = w.ready;
        registered = w.registered;
        room = w.room;
        numbered = w.numbered;
        queued = w.queued;
        counted = omega (arith, w.counted);
      } in
      rw (serve_turns, receive-none id b w.queued)
        (serve_turns-Kept id limit (n - 1) m more [] b still k)
  serve_turns-Kept id limit n m (takes true ∷ more) (v ∷ rest) b w k =
      let (taken, w') = receive-Waits id limit n m v rest b w in
      let later = serve_turns-Kept id limit (n - 1) m more rest (receive id b).1 w' k in
      rw (serve_turns, taken) (after_write-Kept id v _ _ _ later)

  nothing_left :
      (id left : ℕ) (all : List (RealtimeEvent F)) (s : Served F)
      → Kept id all left s
      → left ≡ 0
      → s.written ≡ all
  nothing_left id left all s k e =
      let none_waits = no_elements (queue_of id s.bus) (k.left_over ∙ e) in
      sym (append-nil s.written) ∙ sym (ap (λ xs. s.written ++ xs) none_waits) ∙ k.whole

  -- A client whose socket stays open and can be written to, that at no time lets more than 128 events
  -- wait, and for which none waits in the end, is written every event that is published after it
  -- subscribed, each once, in order and with its number.
  pub serve_events_all :
      (turns : List (Turn F)) (b : EventBus F)
      → IsReady b
      → KeepsUp 128 0 turns
      → waiting 0 turns ≡ 0
      → (serve_events turns b).written ≡ stamp_all b.sequence (published turns)
  unfolding serve_events
  serve_events_all turns b ready keeps drained =
      let kept = serve_turns-Kept _ 128 0 b.sequence turns [] _ (subscribe-Waits b ready) keeps in
      nothing_left _ _ _ _ kept drained
