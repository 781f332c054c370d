-- ===== src/Matterjs/Stream/Alike.antt =====
-- Where handlers answer alike, `Listen` does, and the loop that runs it again.
use manisa_app.Prelude.{ℕ, refl, ap, some, List, [], ◌∷◌, inl, inr, Bool-cases}
use manisa_app.Domain.Error.{Exec}
use manisa_app.Matter.{AttributeEvent}
use manisa_app.Application.World.{World}
use manisa_app.Application.Simulates.{Simulates, simulates_rules}
use manisa_app.Application.Simulates.Stores.{AreAlike, Simulates-on_matter}
use manisa_app.Matterjs.Wire.{Net}
use manisa_app.Matterjs.Listener.{EventJson}
use manisa_app.Matterjs.Listener.Alike.{dispatch_initial-Simulates, listen-Simulates}
use manisa_app.Matterjs.Stream.{listen_with, listen_stream}
use manisa_app.Process.Backoff.{Round, pause, double, run_matter_events}

module _ {F S T : Type 0} (json : EventJson F) (R : S → T → Type 0)
    (handler : AttributeEvent F → Exec (World S (Net F) F) Unit)
    (other : AttributeEvent F → Exec (World T (Net F) F) Unit)
    (alike : (event : AttributeEvent F)
      → Simulates (AreAlike R) (handler event) (other event)) where
  pub listen_stream-Simulates :
      Simulates (AreAlike R) (listen_stream json (some handler)) (listen_stream json (some other))
  unfolding listen_stream listen_with
  listen_stream-Simulates =
      let initial = dispatch_initial-Simulates json handler other (AreAlike R) alike in
      let later = listen-Simulates json handler other (AreAlike R) alike in
      search (simulates_rules, Simulates-on_matter, initial, later) depth 12

pub run_matter_events-Simulates :
    {W V : Type 0} (R : W → V → Type 0) (m : Exec W Unit) (n : Exec V Unit) (backoff : ℕ)
    (rounds : List Round)
    → Simulates R m n
    → Simulates R (run_matter_events m backoff rounds) (run_matter_events n backoff rounds)
unfolding run_matter_events
run_matter_events-Simulates R m n backoff [] k = record { at = λ w v h. (refl, h) }
run_matter_events-Simulates R m n backoff (r ∷ rounds) k = record {
  at = λ w v h.
      let p = pause backoff r.took in
      let ran = (k.at w v h).1 in
      let (same, later) =
        (run_matter_events-Simulates R m n (double p) rounds k).at (m w).1 (n v).1 ran in
      elim (Bool-cases r.stopped) [
        | inl stopped ↦ rw (run_matter_events, stopped) (refl, ran)
        | inr goes ↦ elim (Bool-cases r.stopped_waiting) [
          | inl stopped ↦ rw (run_matter_events, goes, stopped) (refl, ran)
          | inr waits ↦ rw (run_matter_events, goes, waits) (ap (λ ps. p ∷ ps) same, later)
        ]
      ];
}
