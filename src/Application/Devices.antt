-- ===== src/Application/Devices.antt =====
-- Devices of internal/application/service.go: registration, commissioning and commands.
pub mod Registered
pub mod Commissioned
pub mod Executed
use manisa_app.Prelude.{
  ℕ, String, Bool, true, false, ◌||◌, ◌&&◌, not, Option, some, none, List, ◌==◌, if◌then◌else◌,
  nat_eq,
}
use manisa_app.Float.{Float64}
use manisa_app.Domain.{
  Time, Device, DeviceState, DeviceDescriptor, transport_matter_wifi, transport_matter_thread,
}
use manisa_app.Domain.Error.{
  Exec, Result, ok, err, message, wrapped, invalid_input, unsupported_capability,
  device_not_commissioned,
}
use manisa_app.Text.Trim.{trim_space}
use manisa_app.Platform.Id.{new_id}
use manisa_app.Matter.{CommissionRequest, Controller, Command}
use manisa_app.Capability.Catalog.{get, supports, list_types}
use manisa_app.Application.Command.{DeviceCommandInput, map_device_command}
use manisa_app.Application.World.{
  Service, World, pure, lift, raise, ◌>>=◌, ◌>>◌, attempt, wrapping, on_store, on_matter,
}

pub record CommissionDeviceInput : Type 0 where
  pub home_id : String
  pub room_id : Option String
  pub name : String
  pub product_type : String
  pub transport : String
  pub setup_payload : String
  pub wifi_ssid : String
  pub wifi_password : String
  pub thread_dataset : String
  pub network_only : Bool

-- `_, ok := capability.Get(productType)`
abbrev pub is_listed : String → Bool
is_listed product_type = elim (get product_type) [ none ↦ false | some d ↦ true ]

-- one of the two transports
abbrev pub is_transport : String → Bool
is_transport t = t == transport_matter_wifi || t == transport_matter_thread

module _ {S C F : Type 0} ⦃fl : Float64 F⦄ (svc : Service S C F) where
  -- createDevice
  unfoldable pub register_device :
      Time
      → Option (List ℕ)
      → String
      → String
      → String
      → String
      → Option String
      → Option String
      → Exec (World S C F) Device
  register_device now random raw_home raw_name raw_type raw_transport room_id external_node_id =
      let home_id = trim_space raw_home in
      let name = trim_space raw_name in
      let product_type = trim_space raw_type in
      let transport = trim_space raw_transport in
      if home_id == "" || name == "" || product_type == "" || transport == ""
      then raise invalid_input
      else if not (is_listed product_type)
      then raise invalid_input
      else if not (is_transport transport)
      then raise invalid_input
      else do
        id ← lift (new_id random "device")
        let device : Device = record {
          id = id;
          home_id = home_id;
          room_id = room_id;
          name = name;
          product_type = product_type;
          transport = transport;
          external_node_id = external_node_id;
          created_at = now;
          updated_at = now;
        }
        on_store (svc.store.create_device device)
        pure device

  -- CreateDevice
  unfoldable pub create_device :
      Time
      → Option (List ℕ)
      → String
      → String
      → String
      → String
      → Option String
      → Exec (World S C F) Device
  create_device now random home_id name product_type transport room_id =
      register_device now random home_id name product_type transport room_id none

  unfoldable pub list_devices : String → Exec (World S C F) (List Device)
  list_devices home_id =
      if trim_space home_id == ""
      then raise invalid_input
      else on_store (svc.store.list_devices home_id)

  unfoldable pub device_states : String → Exec (World S C F) (List (DeviceState F))
  device_states raw_id =
      let device_id = trim_space raw_id in
      if device_id == "" then raise invalid_input else do
        _ ← on_store (svc.store.get_device device_id)
        on_store (svc.store.list_device_states device_id)

  unfoldable pub list_device_types : List DeviceDescriptor
  list_device_types = list_types

  unfoldable pub device_descriptor : String → Exec (World S C F) DeviceDescriptor
  device_descriptor raw_id =
      let device_id = trim_space raw_id in
      if device_id == "" then raise invalid_input else do
        device ← on_store (svc.store.get_device device_id)
        elim (get device.product_type) [
          | none ↦ raise unsupported_capability
          | some descriptor ↦ pure descriptor
        ]

  -- the five fields that `CommissionDevice` trims
  abbrev pub trimmed : CommissionDeviceInput → CommissionDeviceInput
  trimmed input = record input {
    home_id = trim_space input.home_id;
    name = trim_space input.name;
    product_type = trim_space input.product_type;
    transport = trim_space input.transport;
    setup_payload = trim_space input.setup_payload;
  }

  abbrev pub request_of : CommissionDeviceInput → CommissionRequest
  request_of input = record {
    setup_payload = input.setup_payload;
    wifi_ssid = input.wifi_ssid;
    wifi_password = input.wifi_password;
    thread_dataset = input.thread_dataset;
    network_only = input.network_only;
  }

  -- From the result of createDevice on: a device that cannot be registered is taken off the fabric
  -- again, whether or not that succeeds.
  unfoldable pub settle : Controller C F → String → Result Device → Exec (World S C F) Device
  settle controller node (ok device) = pure device
  settle controller node (err e) = do
    _ ← attempt (on_matter (controller.remove_node node))
    lift (err (wrapped "register commissioned device" e))

  -- What follows the checks of `CommissionDevice`, on the trimmed input.
  unfoldable pub commission_valid :
      Controller C F → Time → Option (List ℕ) → CommissionDeviceInput → Exec (World S C F) Device
  commission_valid controller now random input = do
    node ←
        wrapping "commission matter device" (on_matter (controller.commission (request_of input)))
    made ← attempt (
        register_device now random input.home_id input.name input.product_type input.transport
          input.room_id (some node))
    settle controller node made

  -- The checks of `CommissionDevice`, on the trimmed input; each refuses with ErrInvalidInput.
  unfoldable pub is_acceptable : CommissionDeviceInput → Bool
  is_acceptable input =
      if input.home_id == ""
        || input.name == ""
        || input.product_type == ""
        || input.setup_payload == ""
      then false
      else if not (is_listed input.product_type)
      then false
      else if not (is_transport input.transport)
      then false
      else if input.transport == transport_matter_wifi
          && input.wifi_ssid == ""
          && not input.network_only
      then false
      else not (
          input.transport == transport_matter_thread
          && input.thread_dataset == ""
          && not input.network_only)

  -- CommissionDevice
  unfoldable pub commission_device :
      Time → Option (List ℕ) → CommissionDeviceInput → Exec (World S C F) Device
  commission_device now random raw = elim svc.matter [
    | none ↦ lift (err (message "matter controller unavailable"))
    | some controller ↦
        if is_acceptable (trimmed raw)
        then commission_valid controller now random (trimmed raw)
        else raise invalid_input
  ]

  -- What follows the lookup of the device in `ExecuteDeviceCommand`.
  unfoldable pub execute_on :
      Controller C F → Device → DeviceCommandInput F → Exec (World S C F) Unit
  execute_on controller device input = elim device.external_node_id [
    | none ↦ raise device_not_commissioned
    | some node ↦
        if trim_space node == ""
        then raise device_not_commissioned
        else if not (supports device.product_type input.endpoint input.capability)
        then raise unsupported_capability
        else do
          command ← lift (map_device_command input)
          wrapping "execute matter command" (on_matter (controller.execute node command))
  ]

  abbrev pub trimmed_command : DeviceCommandInput F → DeviceCommandInput F
  trimmed_command input = record input {
    capability = trim_space input.capability;
    action = trim_space input.action;
  }

  abbrev pub is_blank : String → DeviceCommandInput F → Bool
  is_blank id input =
      id == "" || nat_eq input.endpoint 0 || input.capability == "" || input.action == ""

  -- ExecuteDeviceCommand
  unfoldable pub execute_device_command : String → DeviceCommandInput F → Exec (World S C F) Unit
  execute_device_command raw_id raw =
      let id = trim_space raw_id in
      let input = trimmed_command raw in
      if is_blank id input then raise invalid_input else elim svc.matter [
        | none ↦ lift (err (message "matter controller unavailable"))
        | some controller ↦ do
          device ← on_store (svc.store.get_device id)
          execute_on controller device input
      ]
