-- ===== src/Application/Simulates/Methods.antt =====
-- The service's methods answer alike over stores that answer alike.
use manisa_app.Prelude.{
  ℕ, String, Option, none, some, List, Bool, ◌≡◌, refl, ◌==◌, inl, inr, Option-cases,
}
use manisa_app.Float.{Float64}
use manisa_app.Domain.{Time, Device, DeviceState, RealtimeEvent}
use manisa_app.Domain.Error.{Result, ok, err, unsupported_capability}
use manisa_app.Domain.Store.{Store}
use manisa_app.Matter.{Controller, AttributeEvent}
use manisa_app.Capability.Catalog.{get}
use manisa_app.Capability.State.{StateMapping, from_matter_attribute}
use manisa_app.Application.Command.{DeviceCommandInput}
use manisa_app.Application.World.{Service, World, raise, pure, new_service}
use manisa_app.Application.Homes.{create_home, list_homes, create_room, list_rooms}
use manisa_app.Application.Devices.{
  CommissionDeviceInput, register_device, create_device, list_devices, device_states,
  device_descriptor, settle, commission_valid, commission_device, execute_on, is_blank,
  trimmed_command, execute_device_command, is_acceptable, trimmed,
}
use manisa_app.Application.Attributes.{
  state_of, publish_event, store_and_publish, apply_to, apply_matter_attribute,
}
use manisa_app.Application.Simulates.{
  Simulates, simulates_rules, Simulates-if, Simulates-bind, Simulates-option, Simulates-raise,
  Simulates-pure, Simulates-lift,
}
use manisa_app.Text.Trim.{trim_space}
use manisa_app.Application.Simulates.Stores.{
  Alike, AreAlike, Simulates-on_store, Simulates-on_matter,
}

module _ {S T C F : Type 0} ⦃fl : Float64 F⦄ (store : Store S F) (other : Store T F)
    (matter : Option (Controller C F)) (R : S → T → Type 0) (IsTime : Time → Type 0)
    (IsState : DeviceState F → Type 0) (alike : Alike store other R IsTime IsState) where
  abbrev svc : Service S C F
  svc = new_service store matter

  abbrev svc' : Service T C F
  svc' = new_service other matter

  abbrev Follows :
      {A : Type 0} → (World S C F → A × World S C F) → (World T C F → A × World T C F) → Type 0
  Follows m n = Simulates (AreAlike R) m n

  pub create_home-Simulates :
      (now : Time) (random : Option (List ℕ)) (name : String)
      → IsTime now
      → Follows (create_home svc now random name) (create_home svc' now random name)
  unfolding create_home
  create_home-Simulates now random name t =
      search (simulates_rules, Simulates-on_store, alike.create_home) depth 12

  pub list_homes-Simulates : Follows (list_homes svc) (list_homes svc')
  unfolding list_homes
  list_homes-Simulates = Simulates-on_store _ _ alike.list_homes

  pub create_room-Simulates :
      (now : Time) (random : Option (List ℕ)) (home name : String)
      → IsTime now
      → Follows (create_room svc now random home name) (create_room svc' now random home name)
  unfolding create_room
  create_room-Simulates now random home name t =
      search (simulates_rules, Simulates-on_store, alike.create_room) depth 12

  pub list_rooms-Simulates : (home : String) → Follows (list_rooms svc home) (list_rooms svc' home)
  unfolding list_rooms
  list_rooms-Simulates home = search (simulates_rules, Simulates-on_store, alike.list_rooms)

  register_device-Simulates :
      (now : Time) (random : Option (List ℕ)) (home name product transport : String)
      (room external : Option String)
      → IsTime now
      → Follows
          (register_device svc now random home name product transport room external)
          (register_device svc' now random home name product transport room external)
  unfolding register_device
  register_device-Simulates now random home name product transport room external t =
      search (simulates_rules, Simulates-on_store, alike.create_device) depth 14

  pub create_device-Simulates :
      (now : Time) (random : Option (List ℕ)) (home name product transport : String)
      (room : Option String)
      → IsTime now
      → Follows
          (create_device svc now random home name product transport room)
          (create_device svc' now random home name product transport room)
  unfolding create_device
  create_device-Simulates now random home name product transport room t =
      register_device-Simulates now random home name product transport room none t

  pub list_devices-Simulates :
      (home : String) → Follows (list_devices svc home) (list_devices svc' home)
  unfolding list_devices
  list_devices-Simulates home = search (simulates_rules, Simulates-on_store, alike.list_devices)

  pub device_states-Simulates :
      (id : String) → Follows (device_states svc id) (device_states svc' id)
  unfolding device_states
  device_states-Simulates id =
      search (simulates_rules, Simulates-on_store, alike.get_device, alike.list_device_states)

  pub device_descriptor-Simulates :
      (id : String) → Follows (device_descriptor svc id) (device_descriptor svc' id)
  unfolding device_descriptor
  device_descriptor-Simulates id = Simulates-if (trim_space id == "") _ _ _ _ (Simulates-raise _) (
      Simulates-bind _ _ _ _ (Simulates-on_store _ _ (alike.get_device (trim_space id))) λ device.
        Simulates-option (get device.product_type) (raise unsupported_capability) pure
          (raise unsupported_capability) pure (Simulates-raise _) (λ descriptor. Simulates-pure _))

  settle-Simulates :
      (controller : Controller C F) (node : String) (r : Result Device)
      → Follows (settle svc controller node r) (settle svc' controller node r)
  unfolding settle
  settle-Simulates controller node (ok device) = search simulates_rules
  settle-Simulates controller node (err e) = search (simulates_rules, Simulates-on_matter)

  commission_valid-Simulates :
      (controller : Controller C F) (now : Time) (random : Option (List ℕ))
      (input : CommissionDeviceInput)
      → IsTime now
      → Follows
          (commission_valid svc controller now random input)
          (commission_valid svc' controller now random input)
  unfolding commission_valid
  commission_valid-Simulates controller now random input t =
      search (simulates_rules, Simulates-on_matter, register_device-Simulates, settle-Simulates)

  pub commission_device-Simulates :
      (now : Time) (random : Option (List ℕ)) (input : CommissionDeviceInput)
      → IsTime now
      → Follows (commission_device svc now random input) (commission_device svc' now random input)
  unfolding commission_device is_acceptable
  commission_device-Simulates now random input t =
      Simulates-option matter _ _ _ _ (Simulates-lift _) λ controller.
        Simulates-if (is_acceptable svc (trimmed svc input)) _ _ _ _
          (commission_valid-Simulates controller now random (trimmed svc input) t)
          (Simulates-raise _)

  execute_on-Simulates :
      (controller : Controller C F) (device : Device) (input : DeviceCommandInput F)
      → Follows (execute_on svc controller device input) (execute_on svc' controller device input)
  unfolding execute_on
  execute_on-Simulates controller device input =
      Simulates-option device.external_node_id _ _ _ _ (Simulates-raise _)
        λ external. search (simulates_rules, Simulates-on_matter) depth 12

  pub execute_device_command-Simulates :
      (id : String) (input : DeviceCommandInput F)
      → Follows (execute_device_command svc id input) (execute_device_command svc' id input)
  unfolding execute_device_command
  execute_device_command-Simulates id input =
      Simulates-if (is_blank svc (trim_space id) (trimmed_command svc input)) _ _ _ _
        (Simulates-raise _)
        (Simulates-option matter _ _ _ _ (Simulates-lift _) λ controller.
          Simulates-bind _ _ _ _ (Simulates-on_store _ _ (alike.get_device (trim_space id)))
            λ device. execute_on-Simulates controller device (trimmed_command svc input))

  publish_event-Simulates :
      (now : Time) (event : RealtimeEvent F)
      → Follows (publish_event svc now event) (publish_event svc' now event)
  unfolding publish_event
  publish_event-Simulates now event = record {
    at = λ w v h. rw h.events (refl, record { db = h.db; fabric = h.fabric; events = refl });
  }

  store_and_publish-Simulates :
      (now : Time) (device : Device) (mapping : StateMapping F) (initial : Bool)
      → IsState (state_of now device mapping)
      → Follows
          (store_and_publish svc now device mapping initial)
          (store_and_publish svc' now device mapping initial)
  unfolding store_and_publish
  store_and_publish-Simulates now device mapping initial t =
      search
        (simulates_rules, Simulates-on_store, alike.upsert_device_state, publish_event-Simulates)

  -- Every state that the report can become is such a state.
  abbrev pub Fits : Time → AttributeEvent F → Type 0
  Fits now event =
      (device : Device) (mapping : StateMapping F)
      → from_matter_attribute device.product_type event.path event.value ≡ some mapping
      → IsState (state_of now device mapping)

  apply_to-Simulates :
      (now : Time) (event : AttributeEvent F) (r : Result Device)
      → Fits now event
      → Follows (apply_to svc now event r) (apply_to svc' now event r)
  unfolding apply_to
  apply_to-Simulates now event (err e) fits = search simulates_rules
  apply_to-Simulates now event (ok device) fits = record {
    at = λ w v h.
        elim (Option-cases (from_matter_attribute device.product_type event.path event.value)) [
          | inl unmapped ↦ rw (apply_to, unmapped) (refl, h)
          | inr (mapping, e) ↦
              rw (apply_to, e)
                ((store_and_publish-Simulates now device mapping event.initial
                    (fits device mapping e)).at
                  w v h)
        ];
  }

  pub apply_matter_attribute-Simulates :
      (now : Time) (event : AttributeEvent F)
      → Fits now event
      → Follows (apply_matter_attribute svc now event) (apply_matter_attribute svc' now event)
  unfolding apply_matter_attribute
  apply_matter_attribute-Simulates now event fits = search (
    simulates_rules, Simulates-on_store, alike.get_device_by_external_node_id, apply_to-Simulates,
  )
