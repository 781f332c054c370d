-- ===== src/Application/Attributes/Published.antt =====
-- What a report leaves in the store and on the bus.
use manisa_app.Prelude.{◌≡◌, refl, ◌⊎◌, inl, inr, some, arith, Option-cases}
use manisa_app.Float.{Float64}
use manisa_app.Domain.{Time, Device}
use manisa_app.Domain.Error.{Result, ok}
use manisa_app.Matter.{AttributeEvent}
use manisa_app.Capability.State.{StateMapping, from_matter_attribute}
use manisa_app.Application.EventBus.{publish}
use manisa_app.Application.World.{Service, World, Exec-cases}
use manisa_app.Application.Attributes.{
  state_of, event_of, publish_event, store_and_publish, apply_to, apply_matter_attribute,
}

module _ {S C F : Type 0} ⦃fl : Float64 F⦄ (svc : Service S C F) where
  -- The device of the node was found, the report mapped, the state stored, and its event published.
  pub record Published (now : Time) (event : AttributeEvent F) (w w' : World S C F) : Type 0 where
    pub device : Device
    pub mapping : StateMapping F
    pub db : S
    pub found : svc.store.get_device_by_external_node_id event.node_id w.db ≡ (ok device, db)
    pub mapped : from_matter_attribute device.product_type event.path event.value ≡ some mapping
    pub stored : svc.store.upsert_device_state (state_of now device mapping) db ≡ (ok tt, w'.db)
    pub published : w'.events ≡ publish now (event_of now device mapping event.initial) w.events

  -- Handling a report leaves the Matter fabric alone. It leaves the event bus alone too, unless the
  -- device of the node was found, the report mapped to a state and that state stored: then it
  -- succeeds, and the event of that state, and no other, was published.
  pub apply_matter_attribute_lem :
      (now : Time) (event : AttributeEvent F) (w w' : World S C F) (r : Result (Unit {0}))
      → apply_matter_attribute svc now event w ≡ (r, w')
      → (w'.fabric ≡ w.fabric) × ((w'.events ≡ w.events) ⊎ (Published now event w w' × (r ≡ ok tt)))
  unfolding apply_matter_attribute apply_to store_and_publish publish_event
  apply_matter_attribute_lem now event w w' r h =
      elim (Exec-cases (svc.store.get_device_by_external_node_id event.node_id w.db)) [
        | inr (e, db, missing) ↦ ground arith
        | inl (device, db, found) ↦
            elim (Option-cases (from_matter_attribute device.product_type event.path event.value)) [
              | inl unmapped ↦ ground arith
              | inr (m, mapped) ↦
                  elim (Exec-cases (svc.store.upsert_device_state (state_of now device m) db)) [
                    | inr (e, db', failed) ↦ ground arith
                    | inl (_, db', stored) ↦ (
                      ground arith,
                      inr (
                        record {
                          device = device;
                          mapping = m;
                          db = db;
                          found = found;
                          mapped = mapped;
                          stored = ground arith;
                          published = ground arith;
                        },
                        ground arith,
                      ),
                    )
                  ]
            ]
      ]

  pub apply_matter_attribute_of :
      (now : Time) (event : AttributeEvent F) (device : Device) (m : StateMapping F) (db db' : S)
      (w : World S C F)
      → svc.store.get_device_by_external_node_id event.node_id w.db ≡ (ok device, db)
      → from_matter_attribute device.product_type event.path event.value ≡ some m
      → svc.store.upsert_device_state (state_of now device m) db ≡ (ok tt, db')
      → apply_matter_attribute svc now event w ≡ (
        ok tt,
        record w { db = db'; events = publish now (event_of now device m event.initial) w.events },
      )
  unfolding apply_matter_attribute apply_to store_and_publish publish_event
  apply_matter_attribute_of now event device m db db' w found mapped stored =
      rw (found) (rw (mapped, apply_to) (rw (stored) refl))
