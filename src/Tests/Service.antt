-- ===== src/Tests/Service.antt =====
-- The service over the store.
use manisa_app.Prelude.{
  ℕ, ◌≡◌, refl, ◌⊎◌, true, false, Option, none, some, List, [], ◌∷◌, ◌++◌, arith,
}
use manisa_app.Float.Ratio.{Ratio, ratio}
use manisa_app.Value.{bool}
use manisa_app.Domain.{Device}
use manisa_app.Domain.Error.{Error, ok, err}
use manisa_app.Capability.State.{from_matter_attribute}
use manisa_app.Application.EventBus.{add_one, stamp}
use manisa_app.Application.EventBus.Channels.{keep_last}
use manisa_app.Application.EventBus.Delivery.{IsReady}
use manisa_app.Application.Devices.{
  is_acceptable, trimmed, commission_device, execute_device_command, register_device,
}
use manisa_app.Application.Devices.Registered.{IsDevice, IsAsked, register_device_lem}
use manisa_app.Application.Devices.Executed.{Sent, execute_device_command_lem}
use manisa_app.Application.Devices.Commissioned.{Unpaired, Kept, RolledBack, commission_device_lem}
use manisa_app.Application.Attributes.{apply_matter_attribute, state_of, event_of}
use manisa_app.Application.Attributes.Published.{Published, apply_matter_attribute_lem}
use manisa_app.Application.Attributes.Delivered.{apply_matter_attribute_delivers}
use manisa_app.Storage.Sqlite.{scan_device}
use manisa_app.Storage.States.{state_row}
use manisa_app.Storage.Upserts.{row_of}
use manisa_app.Capability.Catalog.{
  supports, get, catalog, has_capability, switch_descriptor, channels,
}
use manisa_app.Capability.State.{
  StateMapping, parse_attribute_path, parse_parts, capability_for, normalize_matter_value,
  bool_value,
}
use manisa_app.Text.Trim.{trim_space}
use manisa_app.Text.Split.{split}
use manisa_app.Text.Number.{parse_uint}
use manisa_app.Tests.Fixture.{
  engine, service, world, switched_on, new_socket, dim, dimmer, one_subscriber,
}

abbrev bytes : Option (List ℕ)
bytes = some (1 ∷ 2 ∷ [])

commission_device_example :
    (((service.matter ≡ none) ⊎ (is_acceptable service (trimmed service new_socket) ≡ false))
      × ((commission_device service 20 bytes new_socket world).1 ≡ world)
      × ((e : Error) × ((commission_device service 20 bytes new_socket world).0 ≡ err e)))
    ⊎ Unpaired service new_socket world
        (commission_device service 20 bytes new_socket world).1
        (commission_device service 20 bytes new_socket world).0
    ⊎ Kept service new_socket world
        (commission_device service 20 bytes new_socket world).1
        (commission_device service 20 bytes new_socket world).0
    ⊎ RolledBack service new_socket world
        (commission_device service 20 bytes new_socket world).1
        (commission_device service 20 bytes new_socket world).0
commission_device_example =
    commission_device_lem service 20 bytes new_socket world
      (commission_device service 20 bytes new_socket world).1
      (commission_device service 20 bytes new_socket world).0 refl

execute_device_command_example :
    ((execute_device_command service "device_1" dim world).1.events ≡ one_subscriber)
    × (((execute_device_command service "device_1" dim world).1.fabric ≡ [])
        ⊎ Sent service "device_1" dim world
            (execute_device_command service "device_1" dim world).1
            (execute_device_command service "device_1" dim world).0)
execute_device_command_example =
    execute_device_command_lem service "device_1" dim world
      (execute_device_command service "device_1" dim world).1
      (execute_device_command service "device_1" dim world).0 refl

apply_matter_attribute_example :
    ((apply_matter_attribute service 20 switched_on world).1.fabric ≡ [])
    × (((apply_matter_attribute service 20 switched_on world).1.events ≡ one_subscriber)
        ⊎ (Published service 20 switched_on world
              (apply_matter_attribute service 20 switched_on world).1
            × ((apply_matter_attribute service 20 switched_on world).0 ≡ ok tt)))
apply_matter_attribute_example =
    apply_matter_attribute_lem service 20 switched_on world
      (apply_matter_attribute service 20 switched_on world).1
      (apply_matter_attribute service 20 switched_on world).0 refl

register_device_example :
    (((register_device service 20 bytes "home_1" "Plug" "socket" "matter_wifi" none
          (some "42")
          world).1
        ≡ world)
      × ((e : Error) × ((register_device service 20 bytes "home_1" "Plug" "socket" "matter_wifi"
              none
              (some "42")
              world).0
            ≡ err e)))
    ⊎ ((d : Device) × IsDevice d
        × (d.external_node_id ≡ some "42")
        × (d.room_id ≡ none)
        × IsAsked service d 20 "home_1" "Plug" "socket" "matter_wifi"
        × ((register_device service 20 bytes "home_1" "Plug" "socket" "matter_wifi" none
              (some "42")
              world).1
            ≡ record world { db = (service.store.create_device d world.db).1 })
        × ((((service.store.create_device d world.db).0 ≡ ok tt)
              × ((register_device service 20 bytes "home_1" "Plug" "socket" "matter_wifi" none
                    (some "42")
                    world).0
                  ≡ ok d))
            ⊎ ((e : Error) × ((service.store.create_device d world.db).0 ≡ err e)
                × ((register_device service 20 bytes "home_1" "Plug" "socket" "matter_wifi" none
                      (some "42")
                      world).0
                    ≡ err e))))
register_device_example =
    register_device_lem service 20 bytes "home_1" "Plug" "socket" "matter_wifi" none (some "42")
      world
      (register_device service 20 bytes "home_1" "Plug" "socket" "matter_wifi" none (some "42")
        world).1
      (register_device service 20 bytes "home_1" "Plug" "socket" "matter_wifi" none (some "42")
        world).0
      refl

one_subscriber-IsReady : IsReady one_subscriber
one_subscriber-IsReady = record {
  distinct = (refl, tt);
  channels = λ i t. record { room = omega arith; fits = omega arith };
}

abbrev dimmer_on : StateMapping Ratio
dimmer_on = record { endpoint = 1; capability = "on_off"; value = bool true }

switched_on-mapped : from_matter_attribute "dimmer_1gang" "1/6/0" (bool true) ≡ some dimmer_on
unfolding from_matter_attribute parse_attribute_path parse_parts trim_space split parse_uint
    supports get catalog has_capability switch_descriptor channels capability_for
    normalize_matter_value bool_value
switched_on-mapped = refl

apply_matter_attribute_delivers_example :
    ((apply_matter_attribute service 20 switched_on world).0 ≡ ok tt)
    × (row_of
          (state_row engine (state_of 20 (scan_device engine dimmer) dimmer_on) "true")
          (apply_matter_attribute service 20 switched_on world).1.db.tables.device_states
        ≡ some (state_row engine (state_of 20 (scan_device engine dimmer) dimmer_on) "true"))
    × (((apply_matter_attribute service 20 switched_on world).1.events.channel 1).queue
        ≡ keep_last 2 (
            []
            ++ stamp 20 (add_one 0) (event_of 20 (scan_device engine dimmer) dimmer_on false) ∷ []))
apply_matter_attribute_delivers_example =
    apply_matter_attribute_delivers service engine 20 switched_on world 1 dimmer dimmer_on "true"
      true true refl refl switched_on-mapped refl refl refl one_subscriber-IsReady refl
