-- ===== src/Application/EventBus/Delivery.antt =====
-- What `publish` leaves on the channels.
use manisa_app.Prelude.{
  ℕ, ◌≡◌, refl, ap, ◌∙◌, true, false, List, [], ◌∷◌, ◌++◌, arith, if◌then◌else◌, inl, inr,
  Bool-cases,
}
use mathlib.Core.List.{append_assoc, append-nil}
use manisa_app.Domain.{Time, RealtimeEvent}
use manisa_app.Application.EventBus.{
  Channel, EventBus, update, add_one, stamp, contains, deliver, publish_to, publish,
}
use manisa_app.Application.EventBus.Channels.{
  IsChannel, keep_last, keep_last-keep_last, deliver-queue, deliver-IsChannel, keep_last_all,
}

-- The keys of a map are distinct.
abbrev pub Distinct : List ℕ → Type 0
Distinct [] = Unit
Distinct (i ∷ is) = (contains i is ≡ false) × Distinct is

-- Each subscriber's channel has room for a value, and holds no more than fit.
pub record IsReady {F : Type 0} (b : EventBus F) : Type 0 where
  pub distinct : Distinct b.subscribers
  pub channels : (i : ℕ) → contains i b.subscribers ≡ true → IsChannel (b.channel i)

module _ {F : Type 0} where
  pub publish_to_at :
      (is : List ℕ) (v : RealtimeEvent F) (channel : ℕ → Channel F) (j : ℕ)
      → Distinct is
      → publish_to is v channel j ≡ (if contains j is then deliver v (channel j) else channel j)
  unfolding publish_to
  publish_to_at [] v channel j d = refl
  publish_to_at (i ∷ is) v channel j d =
      ground (arith, publish_to_at is v (update channel i (deliver v (channel i))) j d.1)

  -- With a bus that is ready, `publish` appends the stamped event to the queue of each subscriber and
  -- keeps the newest as many as fit; every other channel is left alone.
  pub publish_delivers :
      (now : Time) (e : RealtimeEvent F) (b : EventBus F) (j : ℕ)
      → IsReady b
      → (publish now e b).channel j ≡ (
          if contains j b.subscribers
          then record (b.channel j) {
            queue =
                keep_last
                  (b.channel j).cap
                  ((b.channel j).queue ++ stamp now (add_one b.sequence) e ∷ []);
          }
          else b.channel j)
  unfolding publish
  publish_delivers now e b j r = elim (Bool-cases (contains j b.subscribers)) [
    | inl t ↦
        publish_to_at b.subscribers _ b.channel j r.distinct
        ∙ (rw t (deliver-queue _ (b.channel j) (r.channels j t)))
    | inr f ↦ publish_to_at b.subscribers _ b.channel j r.distinct ∙ (rw f refl)
  ]

  pub publish-queue :
      (now : Time) (e : RealtimeEvent F) (b : EventBus F) (j : ℕ)
      → IsReady b
      → contains j b.subscribers ≡ true
      → ((publish now e b).channel j).queue
        ≡ keep_last (b.channel j).cap ((b.channel j).queue ++ stamp now (add_one b.sequence) e ∷ [])
  publish-queue now e b j r t =
      let kept : Channel F = record (b.channel j) {
        queue =
            keep_last (b.channel j).cap
              ((b.channel j).queue ++ stamp now (add_one b.sequence) e ∷ []);
      } in
      let whole : (publish now e b).channel j ≡ kept = publish_delivers now e b j r ∙ (rw t) in
      ap (λ (ch : Channel F). ch.queue) whole

  pub publish-IsReady :
      (now : Time) (e : RealtimeEvent F) (b : EventBus F) → IsReady b → IsReady (publish now e b)
  unfolding publish
  publish-IsReady now e b r = record {
    distinct = r.distinct;
    channels = λ i t.
        rw (publish_to_at b.subscribers _ b.channel i r.distinct, t)
          (deliver-IsChannel _ (b.channel i) (r.channels i t));
  }

  -- Events published one after the other, with the clock at each.
  pub publish_all : List (Time × RealtimeEvent F) → EventBus F → EventBus F
  publish_all [] b = b
  publish_all ((now, e) ∷ es) b = publish_all es (publish now e b)

  -- The same events as subscribers see them, from the bus's sequence number on.
  unfoldable pub stamp_all : ℕ → List (Time × RealtimeEvent F) → List (RealtimeEvent F)
  stamp_all n [] = []
  stamp_all n ((now, e) ∷ es) = stamp now (add_one n) e ∷ stamp_all (add_one n) es

  abbrev append_kept : List (RealtimeEvent F) → Channel F → Channel F
  append_kept vs ch = record ch { queue = keep_last ch.cap (ch.queue ++ vs) }

  append_kept-append_kept :
      (ch : Channel F) (vs ws : List (RealtimeEvent F))
      → append_kept ws (append_kept vs ch) ≡ append_kept (vs ++ ws) ch
  append_kept-append_kept ch vs ws =
      rw (keep_last-keep_last ch.cap (ch.queue ++ vs) ws, append_assoc)

  -- On a bus that is ready, a subscriber that takes nothing off its channel while events are published
  -- is left with the newest of what it had and of these events, in order and as many as fit.
  pub publish_all_delivers :
      (es : List (Time × RealtimeEvent F)) (b : EventBus F) (j : ℕ)
      → IsReady b
      → contains j b.subscribers ≡ true
      → (publish_all es b).channel j ≡ record (b.channel j) {
        queue = keep_last (b.channel j).cap ((b.channel j).queue ++ stamp_all b.sequence es);
      }
  unfolding publish_all stamp_all publish
  publish_all_delivers [] b j r t =
      let ok : IsChannel (b.channel j) = r.channels j t in
      rw (
        append-nil (b.channel j).queue,
        keep_last_all (b.channel j).cap (b.channel j).queue ok.fits,
      )
  publish_all_delivers ((now, e) ∷ es) b j r t =
      let rest = stamp_all (add_one b.sequence) es in
      publish_all_delivers es (publish now e b) j (publish-IsReady now e b r) t
      ∙ ap (append_kept rest) (publish_delivers now e b j r ∙ (rw t refl))
      ∙ append_kept-append_kept (b.channel j) (stamp now (add_one b.sequence) e ∷ []) rest
