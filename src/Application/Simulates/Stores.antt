-- ===== src/Application/Simulates/Stores.antt =====
-- Two stores that answer alike, and the service's state over each of them.
use manisa_app.Prelude.{String, ◌≡◌, refl}
use manisa_app.Domain.{Time, Home, Room, Device, DeviceState, LocalClient}
use manisa_app.Domain.Error.{Exec}
use manisa_app.Domain.Store.{Store}
use manisa_app.Application.World.{World, on_store, on_matter}
use manisa_app.Application.Simulates.{Simulates}

-- The methods give the same answers from states in `R`, for what is handed over with such times, and
-- for such states of devices.
pub record Alike {S T F : Type 0} (store : Store S F) (other : Store T F) (R : S → T → Type 0)
    (IsTime : Time → Type 0) (IsState : DeviceState F → Type 0) : Type 0 where
  pub create_home :
      (home : Home)
      → IsTime home.created_at
      → IsTime home.updated_at
      → Simulates R (store.create_home home) (other.create_home home)
  pub list_homes : Simulates R store.list_homes other.list_homes
  pub create_room :
      (room : Room)
      → IsTime room.created_at
      → IsTime room.updated_at
      → Simulates R (store.create_room room) (other.create_room room)
  pub list_rooms : (id : String) → Simulates R (store.list_rooms id) (other.list_rooms id)
  pub create_device :
      (device : Device)
      → IsTime device.created_at
      → IsTime device.updated_at
      → Simulates R (store.create_device device) (other.create_device device)
  pub get_device : (id : String) → Simulates R (store.get_device id) (other.get_device id)
  pub get_device_by_external_node_id :
      (node : String)
      → Simulates R
          (store.get_device_by_external_node_id node)
          (other.get_device_by_external_node_id node)
  pub list_devices : (id : String) → Simulates R (store.list_devices id) (other.list_devices id)
  pub upsert_device_state :
      (state : DeviceState F)
      → IsState state
      → Simulates R (store.upsert_device_state state) (other.upsert_device_state state)
  pub list_device_states :
      (id : String) → Simulates R (store.list_device_states id) (other.list_device_states id)
  pub create_local_client :
      (client : LocalClient)
      → IsTime client.created_at
      → IsTime client.last_used
      → Simulates R (store.create_local_client client) (other.create_local_client client)
  pub get_local_client_by_token_hash :
      (hash : String)
      → Simulates R
          (store.get_local_client_by_token_hash hash)
          (other.get_local_client_by_token_hash hash)
  pub touch_local_client :
      (id : String) → Simulates R (store.touch_local_client id) (other.touch_local_client id)

-- Related states of the stores, and everything else the same.
pub record AreAlike {S T C F : Type 0} (R : S → T → Type 0) (w : World S C F) (v : World T C F)
    : Type 0 where
  pub db : R w.db v.db
  pub fabric : w.fabric ≡ v.fabric
  pub events : w.events ≡ v.events

module _ {S T C F A : Type 0} {R : S → T → Type 0} where
  pub Simulates-on_store :
      (m : Exec S A) (n : Exec T A)
      → Simulates R m n
      → Simulates (AreAlike {C = C} {F = F} R) (on_store m) (on_store n)
  Simulates-on_store m n k = record {
    at = λ w v h.
        let (same, related) = k.at w.db v.db h.db in
        (same, record { db = related; fabric = h.fabric; events = h.events });
  }

  pub Simulates-on_matter :
      (m : Exec C A) → Simulates (AreAlike {F = F} R) (on_matter m) (on_matter m)
  Simulates-on_matter m = record {
    at = λ w v h. rw h.fabric (refl, record { db = h.db; fabric = refl; events = h.events });
  }
