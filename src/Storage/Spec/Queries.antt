-- ===== src/Storage/Spec/Queries.antt =====
-- The queries of internal/storage/sqlite answer what a Hub answers.
use manisa_app.Prelude.{
  ℕ, ◌≡◌, refl, String, Bool, true, Option, none, some, List, [], ◌∷◌, ◌==◌, map, All,
}
use manisa_app.Domain.{Home, Room, Device, DeviceState, LocalClient}
use manisa_app.Domain.Error.{ok}
use manisa_app.Application.World.{◌>>=◌}
use manisa_app.Storage.Tables.{find, select, order_by, text_le, opt_eq}
use manisa_app.Storage.Engine.{Engine, Db, ran, query_ran}
use manisa_app.Storage.Sqlite.{
  home_row, read_home, list_homes, room_row, read_room, list_rooms, device_row, scan_device,
  list_devices, found, get_device, get_device_by_external_node_id,
}
use manisa_app.Storage.States.{
  client_row, read_client, state_le, decode_row, decode_rows, list_device_states, found_client,
  get_local_client_by_token_hash,
}
use manisa_app.Storage.Listing.{All-Among, order_by-All, select-All, find-Among}
use manisa_app.Storage.Refine.{Survives}
use manisa_app.Storage.Spec.{Hub, looked_up, ask, state_first, spec}
use manisa_app.Storage.Spec.Mapped.{map_option, find-map, select-map, order_by-map, map-back}
use manisa_app.Storage.Spec.Rows.{IsKept, IsReadable, Implements, row_of_state, db_of}

module _ {F : Type 0} (engine : Engine F) (runs : (n : ℕ) → engine.outcome n ≡ ran true) where
  ask-IsReadable : (hub : Hub F) → IsReadable engine hub → IsReadable engine (ask hub)
  ask-IsReadable hub r = record {
    homes = r.homes;
    rooms = r.rooms;
    devices = r.devices;
    states = r.states;
    clients = r.clients;
  }

  back_home :
      (h : Home)
      → IsKept engine h.created_at × IsKept engine h.updated_at
      → read_home engine (home_row engine h) ≡ h
  back_home h (made, changed) = rw (made, changed) refl

  back_room :
      (r : Room)
      → IsKept engine r.created_at × IsKept engine r.updated_at
      → read_room engine (room_row engine r) ≡ r
  back_room r (made, changed) = rw (made, changed) refl

  back_device :
      (d : Device)
      → IsKept engine d.created_at × IsKept engine d.updated_at
      → scan_device engine (device_row engine d) ≡ d
  back_device d (made, changed) = rw (made, changed) refl

  back_client :
      (c : LocalClient)
      → IsKept engine c.created_at × IsKept engine c.last_used
      → read_client engine (client_row engine c) ≡ c
  back_client c (made, used) = rw (made, used) refl

  -- All that are selected and put in order are read back.
  module _ {A B : Type 0} (row : A → B) (read : B → A) (P : A → Type 0)
      (back : (a : A) → P a → read (row a) ≡ a) where
    listed :
        (le : B → B → Bool) (xs : List A)
        → All P xs
        → map read (order_by le (map row xs)) ≡ order_by (λ a b. le (row a) (row b)) xs
    listed le xs h =
        let ordered = order_by (λ a b. le (row a) (row b)) xs in
        rw (order_by-map row le xs)
          (map-back row read ordered (mapped ordered (order_by-All _ P xs h)))
      where
        mapped : (ys : List A) → All P ys → All (λ a. read (row a) ≡ a) ys
        mapped [] k = tt
        mapped (y ∷ ys) (k, ks) = (back y k, mapped ys ks)

    selected : (p : B → Bool) (xs : List A) → All P xs → All P (select (λ a. p (row a)) xs)
    selected p xs h = select-All (λ a. p (row a)) P xs λ x m t. All-Among P x xs h m

  pub list_homes-Implements : Implements engine (list_homes engine) (spec engine).list_homes
  unfolding list_homes
  list_homes-Implements hub r =
      let rows =
        listed (home_row engine) (read_home engine) _ back_home
          (λ a b. text_le a.created_at b.created_at) hub.homes r.homes in
      (
        rw (query_ran engine _ (db_of engine hub) true (runs hub.asked)) (rw rows refl),
        ask-IsReadable hub r,
      )

  pub list_rooms-Implements :
      (home_id : String)
      → Implements engine (list_rooms engine home_id) ((spec engine).list_rooms home_id)
  unfolding list_rooms
  list_rooms-Implements home_id hub r =
      let own = select (λ x. x.home_id == home_id) hub.rooms in
      let rows =
        listed (room_row engine) (read_room engine) _ back_room
          (λ a b. text_le a.created_at b.created_at) own
          (selected (room_row engine) (read_room engine) _ back_room (λ x. x.home_id == home_id)
            hub.rooms r.rooms) in
      (
        rw
            (
              query_ran engine _ (db_of engine hub) true (runs hub.asked),
              select-map (room_row engine) (λ x. x.home_id == home_id) hub.rooms,
            )
            (rw rows refl),
        ask-IsReadable hub r,
      )

  pub list_devices-Implements :
      (home_id : String)
      → Implements engine (list_devices engine home_id) ((spec engine).list_devices home_id)
  unfolding list_devices
  list_devices-Implements home_id hub r =
      let own = select (λ x. x.home_id == home_id) hub.devices in
      let rows =
        listed (device_row engine) (scan_device engine) _ back_device
          (λ a b. text_le a.created_at b.created_at) own
          (selected (device_row engine) (scan_device engine) _ back_device
            (λ x. x.home_id == home_id) hub.devices r.devices) in
      (
        rw
            (
              query_ran engine _ (db_of engine hub) true (runs hub.asked),
              select-map (device_row engine) (λ x. x.home_id == home_id) hub.devices,
            )
            (rw rows refl),
        ask-IsReadable hub r,
      )

  decode_rows-row :
      (xs : List (DeviceState F))
      → All (Survives engine) xs
      → decode_rows engine (map (row_of_state engine) xs) ≡ ok xs
  unfolding decode_rows decode_row
  decode_rows-row [] h = refl
  decode_rows-row (s ∷ ss) (k, ks) =
      rw (decode_row, k.written, k.value, k.time, decode_rows-row ss ks) refl

  pub list_device_states-Implements :
      (id : String)
      → Implements engine (list_device_states engine id) ((spec engine).list_device_states id)
  unfolding list_device_states
  list_device_states-Implements id hub r =
      let own = select (λ s. s.device_id == id) hub.states in
      let all : All (Survives engine) own =
        select-All _ (Survives engine) hub.states
          λ x m t. All-Among (Survives engine) x hub.states r.states m in
      let rows =
        decode_rows-row (order_by state_first own) (order_by-All _ (Survives engine) own all) in
      (
        rw
            (
              list_device_states,
              ◌>>=◌,
              query_ran engine _ (db_of engine hub) true (runs hub.asked),
              select-map (row_of_state engine) (λ s. s.device_id == id) hub.states,
              order_by-map (row_of_state engine) state_le own,
            )
            (rw rows refl),
        ask-IsReadable hub r,
      )

  -- What holds of all holds of the one that is found.
  All-find :
      {A : Type 0} (P : A → Type 0) (p : A → Bool) (xs : List A) (x : A)
      → All P xs
      → find p xs ≡ some x
      → P x
  All-find P p xs x h e = All-Among P x xs h (find-Among p x xs e).0

  found-row :
      (o : Option Device) (db : Db)
      → ((d : Device) → o ≡ some d → scan_device engine (device_row engine d) ≡ d)
      → found engine (map_option (device_row engine) o) db ≡ (looked_up o, db)
  found-row none db h = refl
  found-row (some d) db h = rw (h d refl) refl

  pub get_device-Implements :
      (id : String) → Implements engine (get_device engine id) ((spec engine).get_device id)
  unfolding get_device
  get_device-Implements id hub r = (
    rw
        (
          query_ran engine (λ t. find (λ x. x.id == id) t.devices) (db_of engine hub) true
              (runs hub.asked),
          find-map (device_row engine) (λ x. x.id == id) hub.devices,
        )
        (found-row (find (λ x. x.id == id) hub.devices) (db_of engine (ask hub))
          λ d there. back_device d (All-find _ _ hub.devices d r.devices there)),
    ask-IsReadable hub r,
  )

  pub get_device_by_external_node_id-Implements :
      (node : String)
      → Implements engine
          (get_device_by_external_node_id engine node)
          ((spec engine).get_device_by_external_node_id node)
  unfolding get_device_by_external_node_id
  get_device_by_external_node_id-Implements node hub r = (
    rw
        (
          query_ran engine (λ t. find (λ x. opt_eq x.external_node_id node) t.devices)
              (db_of engine hub) true (runs hub.asked),
          find-map (device_row engine) (λ x. opt_eq x.external_node_id node) hub.devices,
        )
        (found-row (find (λ x. opt_eq x.external_node_id node) hub.devices) (db_of engine (ask hub))
          λ d there. back_device d (All-find _ _ hub.devices d r.devices there)),
    ask-IsReadable hub r,
  )

  found_client-row :
      (o : Option LocalClient) (db : Db)
      → ((c : LocalClient) → o ≡ some c → read_client engine (client_row engine c) ≡ c)
      → found_client engine (map_option (client_row engine) o) db ≡ (looked_up o, db)
  found_client-row none db h = refl
  found_client-row (some c) db h = rw (h c refl) refl

  pub get_local_client_by_token_hash-Implements :
      (hash : String)
      → Implements engine
          (get_local_client_by_token_hash engine hash)
          ((spec engine).get_local_client_by_token_hash hash)
  unfolding get_local_client_by_token_hash
  get_local_client_by_token_hash-Implements hash hub r = (
    rw
        (
          query_ran engine (λ t. find (λ x. x.token_hash == hash) t.local_clients)
              (db_of engine hub) true (runs hub.asked),
          find-map (client_row engine) (λ x. x.token_hash == hash) hub.clients,
        )
        (found_client-row (find (λ x. x.token_hash == hash) hub.clients) (db_of engine (ask hub))
          λ c there. back_client c (All-find _ _ hub.clients c r.clients there)),
    ask-IsReadable hub r,
  )
