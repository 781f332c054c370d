-- ===== src/Domain/Store.antt =====
-- internal/domain/store.go: the storage interface, over the type `S` of its states.
use manisa_app.Prelude.{String, List}
use manisa_app.Domain.Error.{Exec}
use manisa_app.Domain.{Home, Room, Device, DeviceState, LocalClient}

pub record Store (S F : Type 0) : Type 0 where
  pub create_home : Home → Exec S Unit
  pub list_homes : Exec S (List Home)
  pub create_room : Room → Exec S Unit
  pub list_rooms : String → Exec S (List Room)
  pub create_device : Device → Exec S Unit
  pub get_device : String → Exec S Device
  pub get_device_by_external_node_id : String → Exec S Device
  pub list_devices : String → Exec S (List Device)
  pub upsert_device_state : DeviceState F → Exec S Unit
  pub list_device_states : String → Exec S (List (DeviceState F))
  pub create_local_client : LocalClient → Exec S Unit
  pub get_local_client_by_token_hash : String → Exec S LocalClient
  pub touch_local_client : String → Exec S Unit
