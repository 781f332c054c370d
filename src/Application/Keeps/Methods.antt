-- ===== src/Application/Keeps/Methods.antt =====
-- The service's methods keep what the store's methods keep, and the event bus ready.
use manisa_app.Prelude.{ℕ, String, Option, none, List, Bool, ◌==◌}
use manisa_app.Float.{Float64}
use manisa_app.Domain.{Time, Device, RealtimeEvent}
use manisa_app.Domain.Error.{Result, ok, err, unsupported_capability}
use manisa_app.Matter.{Controller, AttributeEvent}
use manisa_app.Capability.Catalog.{get}
use manisa_app.Capability.State.{StateMapping, from_matter_attribute}
use manisa_app.Application.Command.{DeviceCommandInput}
use manisa_app.Application.EventBus.Delivery.{publish-IsReady}
use manisa_app.Application.World.{Service, World, raise, pure}
use manisa_app.Application.Homes.{create_home, list_homes, create_room, list_rooms}
use manisa_app.Application.Devices.{
  CommissionDeviceInput, register_device, create_device, list_devices, device_states,
  device_descriptor, settle, commission_valid, commission_device, execute_on, is_blank,
  trimmed_command, execute_device_command,
}
use manisa_app.Application.Attributes.{
  publish_event, store_and_publish, apply_to, apply_matter_attribute,
}
use manisa_app.Application.Keeps.{
  Keeps, keeps_rules, Keeps-if, Keeps-bind, Keeps-option, Keeps-raise, Keeps-pure, Keeps-lift,
}
use manisa_app.Text.Trim.{trim_space}
use manisa_app.Application.Keeps.Stores.{Preserves, IsSound, Keeps-on_store, Keeps-on_matter}

module _ {S C F : Type 0} ⦃fl : Float64 F⦄ (svc : Service S C F) (P : S → Type 0)
    (kept : Preserves svc.store P) where
  abbrev IsKept : {A : Type 0} → (World S C F → A × World S C F) → Type 0
  IsKept m = Keeps (IsSound P) m

  pub create_home-Keeps :
      (now : Time) (random : Option (List ℕ)) (name : String)
      → IsKept (create_home svc now random name)
  unfolding create_home
  create_home-Keeps now random name = search (keeps_rules, Keeps-on_store, kept.create_home)

  pub list_homes-Keeps : IsKept (list_homes svc)
  unfolding list_homes
  list_homes-Keeps = Keeps-on_store _ kept.list_homes

  pub create_room-Keeps :
      (now : Time) (random : Option (List ℕ)) (home name : String)
      → IsKept (create_room svc now random home name)
  unfolding create_room
  create_room-Keeps now random home name = search (keeps_rules, Keeps-on_store, kept.create_room)

  pub list_rooms-Keeps : (home : String) → IsKept (list_rooms svc home)
  unfolding list_rooms
  list_rooms-Keeps home = search (keeps_rules, Keeps-on_store, kept.list_rooms)

  register_device-Keeps :
      (now : Time) (random : Option (List ℕ)) (home name product transport : String)
      (room external : Option String)
      → IsKept (register_device svc now random home name product transport room external)
  unfolding register_device
  register_device-Keeps now random home name product transport room external =
      search (keeps_rules, Keeps-on_store, kept.create_device) depth 12

  pub create_device-Keeps :
      (now : Time) (random : Option (List ℕ)) (home name product transport : String)
      (room : Option String)
      → IsKept (create_device svc now random home name product transport room)
  unfolding create_device
  create_device-Keeps now random home name product transport room =
      register_device-Keeps now random home name product transport room none

  pub list_devices-Keeps : (home : String) → IsKept (list_devices svc home)
  unfolding list_devices
  list_devices-Keeps home = search (keeps_rules, Keeps-on_store, kept.list_devices)

  pub device_states-Keeps : (id : String) → IsKept (device_states svc id)
  unfolding device_states
  device_states-Keeps id =
      search (keeps_rules, Keeps-on_store, kept.get_device, kept.list_device_states)

  pub device_descriptor-Keeps : (id : String) → IsKept (device_descriptor svc id)
  unfolding device_descriptor
  device_descriptor-Keeps id = Keeps-if (trim_space id == "") _ _ (Keeps-raise _) (
      Keeps-bind _ _ (Keeps-on_store _ (kept.get_device (trim_space id))) λ device.
        Keeps-option (get device.product_type) (raise unsupported_capability) pure (Keeps-raise _)
          (λ descriptor. Keeps-pure _))

  settle-Keeps :
      (controller : Controller C F) (node : String) (r : Result Device)
      → IsKept (settle svc controller node r)
  unfolding settle
  settle-Keeps controller node (ok device) = search keeps_rules
  settle-Keeps controller node (err e) = search (keeps_rules, Keeps-on_matter)

  commission_valid-Keeps :
      (controller : Controller C F) (now : Time) (random : Option (List ℕ))
      (input : CommissionDeviceInput)
      → IsKept (commission_valid svc controller now random input)
  unfolding commission_valid
  commission_valid-Keeps controller now random input =
      search (keeps_rules, Keeps-on_matter, register_device-Keeps, settle-Keeps)

  pub commission_device-Keeps :
      (now : Time) (random : Option (List ℕ)) (input : CommissionDeviceInput)
      → IsKept (commission_device svc now random input)
  unfolding commission_device
  commission_device-Keeps now random input =
      Keeps-option svc.matter _ _ (search keeps_rules)
        λ controller. search (keeps_rules, commission_valid-Keeps)

  execute_on-Keeps :
      (controller : Controller C F) (device : Device) (input : DeviceCommandInput F)
      → IsKept (execute_on svc controller device input)
  unfolding execute_on
  execute_on-Keeps controller device input =
      Keeps-option device.external_node_id _ _ (search keeps_rules)
        λ external. search (keeps_rules, Keeps-on_matter) depth 12

  pub execute_device_command-Keeps :
      (id : String) (input : DeviceCommandInput F) → IsKept (execute_device_command svc id input)
  unfolding execute_device_command
  execute_device_command-Keeps id input =
      Keeps-if (is_blank svc (trim_space id) (trimmed_command svc input)) _ _ (Keeps-raise _) (
        Keeps-option svc.matter _ _ (Keeps-lift _) λ controller.
          Keeps-bind _ _ (Keeps-on_store _ (kept.get_device (trim_space id)))
            λ device. execute_on-Keeps controller device (trimmed_command svc input))

  publish_event-Keeps :
      (now : Time) (event : RealtimeEvent F) → IsKept (publish_event svc now event)
  unfolding publish_event
  publish_event-Keeps now event = record {
    at = λ w h. record { db = h.db; ready = publish-IsReady now event w.events h.ready };
  }

  store_and_publish-Keeps :
      (now : Time) (device : Device) (mapping : StateMapping F) (initial : Bool)
      → IsKept (store_and_publish svc now device mapping initial)
  unfolding store_and_publish
  store_and_publish-Keeps now device mapping initial =
      search (keeps_rules, Keeps-on_store, kept.upsert_device_state, publish_event-Keeps)

  apply_to-Keeps :
      (now : Time) (event : AttributeEvent F) (r : Result Device)
      → IsKept (apply_to svc now event r)
  unfolding apply_to
  apply_to-Keeps now event (err e) = search keeps_rules
  apply_to-Keeps now event (ok device) =
      Keeps-option (from_matter_attribute device.product_type event.path event.value) _ _
        (search keeps_rules) (λ mapping. store_and_publish-Keeps now device mapping event.initial)

  pub apply_matter_attribute-Keeps :
      (now : Time) (event : AttributeEvent F) → IsKept (apply_matter_attribute svc now event)
  unfolding apply_matter_attribute
  apply_matter_attribute-Keeps now event =
      search (keeps_rules, Keeps-on_store, kept.get_device_by_external_node_id, apply_to-Keeps)
