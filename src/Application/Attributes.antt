-- ===== src/Application/Attributes.antt =====
-- `ApplyMatterAttribute` of internal/application/service.go: a report of the fabric becomes a stored
-- state and an event.
pub mod Published
pub mod Delivered
use manisa_app.Prelude.{ℕ, String, Bool, false, Option, some, none, if◌then◌else◌}
use manisa_app.Float.{Float64}
use manisa_app.Domain.{Time, Device, DeviceState, RealtimeEvent}
use manisa_app.Domain.Error.{Exec, Result, ok, err, is, not_found}
use manisa_app.Matter.{AttributeEvent}
use manisa_app.Capability.State.{StateMapping, from_matter_attribute}
use manisa_app.Application.EventBus.{publish}
use manisa_app.Application.World.{
  Service, World, pure, lift, ◌>>=◌, ◌>>◌, attempt, wrapping, on_store,
}

abbrev pub state_of : {F : Type 0} → Time → Device → StateMapping F → DeviceState F
state_of now device mapping = record {
  device_id = device.id;
  endpoint = mapping.endpoint;
  capability = mapping.capability;
  value = mapping.value;
  source = "matter";
  updated_at = now;
}

-- The event as it is given to `publish`, which numbers it.
abbrev pub event_of : {F : Type 0} → Time → Device → StateMapping F → Bool → RealtimeEvent F
event_of now device mapping initial = record {
  sequence = 0;
  kind = "device.state_changed";
  device_id = device.id;
  endpoint = mapping.endpoint;
  capability = mapping.capability;
  value = mapping.value;
  source = "matter";
  initial = initial;
  timestamp = now;
}

module _ {S C F : Type 0} ⦃fl : Float64 F⦄ (svc : Service S C F) where
  -- s.events.publish
  unfoldable pub publish_event : Time → RealtimeEvent F → Exec (World S C F) Unit
  publish_event now event w = (ok tt, record w { events = publish now event w.events })

  unfoldable pub store_and_publish : Time → Device → StateMapping F → Bool → Exec (World S C F) Unit
  store_and_publish now device mapping initial = do
    wrapping "persist matter state"
        (on_store (svc.store.upsert_device_state (state_of now device mapping)))
    publish_event now (event_of now device mapping initial)

  unfoldable pub apply_to : Time → AttributeEvent F → Result Device → Exec (World S C F) Unit
  apply_to now event (err e) = if is e not_found then pure tt else lift (err e)
  apply_to now event (ok device) =
      elim (from_matter_attribute device.product_type event.path event.value) [
        | none ↦ pure tt
        | some mapping ↦ store_and_publish now device mapping event.initial
      ]

  -- ApplyMatterAttribute
  unfoldable pub apply_matter_attribute : Time → AttributeEvent F → Exec (World S C F) Unit
  apply_matter_attribute now event = do
    found ← attempt (on_store (svc.store.get_device_by_external_node_id event.node_id))
    apply_to now event found
