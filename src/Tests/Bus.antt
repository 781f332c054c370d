-- ===== src/Tests/Bus.antt =====
-- The event bus.
use manisa_app.Prelude.{
  ◌≡◌, refl, drop, not, Bool, true, false, List, [], ◌∷◌, ◌++◌, arith, pos, map,
}
use manisa_app.Float.Ratio.{Ratio}
use manisa_app.Value.{bool}
use manisa_app.Domain.{Time, RealtimeEvent}
use manisa_app.Application.EventBus.{
  EventBus, Channel, deliver, publish_to, publish, subscribe, unsubscribe, try_send, try_receive,
  new_event_bus, contains,
}
use manisa_app.Application.EventBus.Channels.{IsChannel, keep_last}
use manisa_app.Application.EventBus.Interleaved.{deliver_between, deliver_between_lem}
use manisa_app.Application.EventBus.Delivery.{IsReady, publish_all, stamp_all, publish_all_delivers}
use manisa_app.Application.EventBus.Order.{publish_to_any_order}
use manisa_app.Application.EventBus.Invariant.{
  IsBus, Reach, start, next, publishes, subscribes, unsubscribes, Reach-IsBus,
}
use manisa_app.HttpApi.Events.{Turn, closes, takes, serve_turns, serve_events}
use manisa_app.HttpApi.Events.Written.{serve_events_all}
use manisa_app.HttpApi.Events.Unsubscribed.{serve_turns_unsubscribes}
use manisa_app.Tests.Fixture.{one_subscriber}

abbrev event : Bool → RealtimeEvent Ratio
event b = record {
  sequence = 0;
  kind = "device.state_changed";
  device_id = "device_1";
  endpoint = 1;
  capability = "on_off";
  value = bool b;
  source = "matter";
  initial = false;
  timestamp = 0;
}

abbrev three_events : List (Time × RealtimeEvent Ratio)
three_events = (10, event true) ∷ (11, event false) ∷ (12, event true) ∷ []

one_subscriber-IsReady : IsReady one_subscriber
one_subscriber-IsReady = record {
  distinct = (refl, tt);
  channels = λ i t. record { room = omega arith; fits = omega arith };
}

-- Of three events two fit.
publish_all_delivers_example :
    (publish_all three_events one_subscriber).channel 1
    ≡ record { cap = 2; queue = keep_last 2 ([] ++ stamp_all 0 three_events) }
publish_all_delivers_example =
    publish_all_delivers three_events one_subscriber 1 one_subscriber-IsReady refl

kept_numbers :
    map
      (λ (e : RealtimeEvent Ratio). e.sequence)
      ((publish 12
          (event true)
          (publish 11 (event false) (publish 10 (event true) one_subscriber))).channel
        1).queue
    ≡ 2 ∷ 3 ∷ []
unfolding publish publish_to deliver try_send try_receive
kept_numbers = refl

publish_to_any_order_example :
    publish_to (1 ∷ 2 ∷ []) (event true) one_subscriber.channel
    ≡ publish_to (2 ∷ 1 ∷ []) (event true) one_subscriber.channel
publish_to_any_order_example =
    publish_to_any_order (1 ∷ 2 ∷ []) (2 ∷ 1 ∷ []) (event true) one_subscriber.channel
      (refl, (refl, tt)) (refl, (refl, tt)) (λ k. ground arith)

abbrev used_bus : EventBus Ratio
used_bus = unsubscribe 1 (publish 10 (event true) (subscribe (pos 128) new_event_bus).1)

used_bus-Reach : Reach used_bus
used_bus-Reach =
    next
      (next (next start (subscribes (pos 128) new_event_bus (omega arith))) (
        publishes 10 (event true) (subscribe (pos 128) new_event_bus).1
          (unfold subscribe in omega arith)))
      (unsubscribes 1 (publish 10 (event true) (subscribe (pos 128) new_event_bus).1))

Reach-IsBus_example : IsBus used_bus
Reach-IsBus_example = Reach-IsBus used_bus-Reach

-- Two events are published, the first is written in between.
abbrev turns : List (Turn Ratio)
turns =
    Turn.publishes 10 (event true)
    ∷ takes true
    ∷ Turn.publishes 11 (event false)
    ∷ takes true
    ∷ takes true
    ∷ []

serve_events_all_example :
    (serve_events turns one_subscriber).written
    ≡ stamp_all 0 ((10, event true) ∷ (11, event false) ∷ [])
serve_events_all_example =
    serve_events_all turns one_subscriber one_subscriber-IsReady (omega arith, (omega arith, tt))
      (omega arith)

serve_turns_unsubscribes_example :
    contains 1 (serve_turns 1 (takes true ∷ closes ∷ []) one_subscriber).bus.subscribers
    ≡ not (serve_turns 1 (takes true ∷ closes ∷ []) one_subscriber).returned
serve_turns_unsubscribes_example =
    serve_turns_unsubscribes 1 (takes true ∷ closes ∷ []) one_subscriber refl

-- a channel that is full
abbrev full : Channel Ratio
full = record { cap = 2; queue = event true ∷ event false ∷ [] }

-- The subscriber takes one value before the channel is drained.
deliver_between_example :
    (deliver_between 1 0 (event true) full
      ≡ record full { queue = drop 2 full.queue ++ event true ∷ [] })
    × IsChannel (deliver_between 1 0 (event true) full)
deliver_between_example =
    deliver_between_lem 1 0 (event true) full (record { room = omega arith; fits = omega arith })
