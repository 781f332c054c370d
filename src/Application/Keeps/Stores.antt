-- ===== src/Application/Keeps/Stores.antt =====
-- What every method of a store keeps, and the invariant of the service over such a store.
use manisa_app.Prelude.{String}
use manisa_app.Domain.{Home, Room, Device, DeviceState, LocalClient}
use manisa_app.Domain.Error.{Exec}
use manisa_app.Domain.Store.{Store}
use manisa_app.Application.EventBus.Delivery.{IsReady}
use manisa_app.Application.World.{World, on_store, on_matter}
use manisa_app.Application.Keeps.{Keeps}

-- The store's methods keep `P`.
pub record Preserves {S F : Type 0} (store : Store S F) (P : S → Type 0) : Type 0 where
  pub create_home : (home : Home) → Keeps P (store.create_home home)
  pub list_homes : Keeps P store.list_homes
  pub create_room : (room : Room) → Keeps P (store.create_room room)
  pub list_rooms : (home_id : String) → Keeps P (store.list_rooms home_id)
  pub create_device : (device : Device) → Keeps P (store.create_device device)
  pub get_device : (id : String) → Keeps P (store.get_device id)
  pub get_device_by_external_node_id :
      (node : String) → Keeps P (store.get_device_by_external_node_id node)
  pub list_devices : (home_id : String) → Keeps P (store.list_devices home_id)
  pub upsert_device_state : (state : DeviceState F) → Keeps P (store.upsert_device_state state)
  pub list_device_states : (id : String) → Keeps P (store.list_device_states id)
  pub create_local_client : (client : LocalClient) → Keeps P (store.create_local_client client)
  pub get_local_client_by_token_hash :
      (hash : String) → Keeps P (store.get_local_client_by_token_hash hash)
  pub touch_local_client : (id : String) → Keeps P (store.touch_local_client id)

-- `P` of the store's state, and an event bus whose subscriptions are distinct and whose channels hold
-- no more than fits.
pub record IsSound {S C F : Type 0} (P : S → Type 0) (w : World S C F) : Type 0 where
  pub db : P w.db
  pub ready : IsReady w.events

module _ {S C F A : Type 0} {P : S → Type 0} where
  pub Keeps-on_store : (m : Exec S A) → Keeps P m → Keeps (IsSound {C = C} {F = F} P) (on_store m)
  Keeps-on_store m k = record { at = λ w h. record { db = k.at w.db h.db; ready = h.ready } }

  pub Keeps-on_matter : (m : Exec C A) → Keeps (IsSound {F = F} P) (on_matter m)
  Keeps-on_matter m = record { at = λ w h. record { db = h.db; ready = h.ready } }
