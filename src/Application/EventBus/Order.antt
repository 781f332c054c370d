-- ===== src/Application/EventBus/Order.antt =====
-- Go ranges over a map in any order: the order of the subscribers does not matter.
use mathlib.Core.Path.{fun_ext}
use manisa_app.Prelude.{ℕ, ◌≡◌, ◌∙◌, sym, ap, List, if◌then◌else◌}
use manisa_app.Domain.{RealtimeEvent}
use manisa_app.Application.EventBus.{Channel, contains, deliver, publish_to}
use manisa_app.Application.EventBus.Delivery.{Distinct, publish_to_at}

-- Two enumerations of the same subscribers, each without repetition, leave the same values on every
-- channel.
pub publish_to_any_order :
    {F : Type 0} (is js : List ℕ) (v : RealtimeEvent F) (channel : ℕ → Channel F)
    → Distinct is
    → Distinct js
    → ((k : ℕ) → contains k is ≡ contains k js)
    → publish_to is v channel ≡ publish_to js v channel
publish_to_any_order is js v channel di dj same = fun_ext λ k.
    publish_to_at is v channel k di
    ∙ ap (λ b. if b then deliver v (channel k) else channel k) (same k)
    ∙ sym (publish_to_at js v channel k dj)
