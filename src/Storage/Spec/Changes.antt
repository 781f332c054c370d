-- ===== src/Storage/Spec/Changes.antt =====
-- The statements of internal/storage/sqlite that change tables implement the changes of a Hub.
use manisa_app.Prelude.{
  ℕ, ◌+◌, ◌≡◌, refl, ap, String, Bool, true, false, not, ◌&&◌, ◌||◌, Option, none, some, [], ◌∷◌,
  ◌==◌, ◌++◌, any, All-append, if◌then◌else◌,
}
use mathlib.Core.Path.{fun_ext}
use manisa_app.Domain.{Home, Room, Device, LocalClient}
use manisa_app.Storage.Tables.{
  Tables, opt_eq, holds_if_set, insert_home, insert_room, insert_device, insert_client,
}
use manisa_app.Storage.Engine.{Engine, ran, exec}
use manisa_app.Storage.Sqlite.{
  home_row, room_row, device_row, create_home, create_room, create_device,
}
use manisa_app.Storage.States.{client_row, create_local_client}
use manisa_app.Application.World.{wrapping}
use manisa_app.Storage.Spec.{Hub, ask, change, spec}
use manisa_app.Storage.Spec.Mapped.{any-map, map-append}
use manisa_app.Storage.Spec.Rows.{IsKept, IsReadable, Implements, tables_of, db_of, exec-change}

module _ {F : Type 0} (engine : Engine F) (runs : (n : ℕ) → engine.outcome n ≡ ran true) where
  pub change-IsReadable :
      (text : String) (refused : Bool) (f : Hub F → Hub F) (hub : Hub F)
      → IsReadable engine hub
      → IsReadable engine (f (ask hub))
      → IsReadable engine (change text refused f hub).1
  change-IsReadable text true f hub r k = record {
    homes = r.homes;
    rooms = r.rooms;
    devices = r.devices;
    states = r.states;
    clients = r.clients;
  }
  change-IsReadable text false f hub r k = k

  -- A statement that is refused, or makes the tables of a changed hub that can be read.
  pub changes :
      (text : String) (s : Bool → Tables → Option Tables) (refused : Bool) (f : Hub F → Hub F)
      (hub : Hub F)
      → (f (ask hub)).asked ≡ hub.asked + 1
      → s true (tables_of engine hub)
        ≡ (if refused then none else some (tables_of engine (f (ask hub))))
      → IsReadable engine hub
      → IsReadable engine (f (ask hub))
      → (wrapping text (exec engine s) (db_of engine hub)
          ≡ ((change text refused f hub).0, db_of engine (change text refused f hub).1))
        × IsReadable engine (change text refused f hub).1
  changes text s refused f hub counted e r k = (
    exec-change engine runs text s refused f hub counted e,
    change-IsReadable text refused f hub r k,
  )

  insert_home-hub :
      (home : Home) (hub : Hub F)
      → insert_home (home_row engine home) true (tables_of engine hub) ≡ (
          if any (λ h. h.id == home.id) hub.homes
          then none
          else some (tables_of engine (record hub { homes = hub.homes ++ home ∷ [] })))
  unfolding insert_home
  insert_home-hub home hub =
      rw
        (
          any-map (home_row engine) (λ r. r.id == home.id) hub.homes,
          map-append (home_row engine) hub.homes (home ∷ []),
        )
        refl

  pub create_home-Implements :
      (home : Home)
      → IsKept engine home.created_at × IsKept engine home.updated_at
      → Implements engine (create_home engine home) ((spec engine).create_home home)
  unfolding create_home
  create_home-Implements home kept hub r =
      changes "create home" (insert_home (home_row engine home)) _
        (λ h. record h { homes = h.homes ++ home ∷ [] }) hub refl (insert_home-hub home hub) r
        (record {
          homes = All-append _ hub.homes (home ∷ []) r.homes (kept, tt);
          rooms = r.rooms;
          devices = r.devices;
          states = r.states;
          clients = r.clients;
        })

  insert_room-hub :
      (room : Room) (hub : Hub F)
      → insert_room (room_row engine room) true (tables_of engine hub) ≡ (
          if any (λ r. r.id == room.id) hub.rooms || not (any (λ h. h.id == room.home_id) hub.homes)
          then none
          else some (tables_of engine (record hub { rooms = hub.rooms ++ room ∷ [] })))
  unfolding insert_room
  insert_room-hub room hub =
      rw
        (
          any-map (room_row engine) (λ r. r.id == room.id) hub.rooms,
          any-map (home_row engine) (λ r. r.id == room.home_id) hub.homes,
          map-append (room_row engine) hub.rooms (room ∷ []),
        )
        refl

  pub create_room-Implements :
      (room : Room)
      → IsKept engine room.created_at × IsKept engine room.updated_at
      → Implements engine (create_room engine room) ((spec engine).create_room room)
  unfolding create_room
  create_room-Implements room kept hub r =
      changes "create room" (insert_room (room_row engine room)) _
        (λ h. record h { rooms = h.rooms ++ room ∷ [] }) hub refl (insert_room-hub room hub) r
        (record {
          homes = r.homes;
          rooms = All-append _ hub.rooms (room ∷ []) r.rooms (kept, tt);
          devices = r.devices;
          states = r.states;
          clients = r.clients;
        })

  insert_device-hub :
      (device : Device) (hub : Hub F)
      → insert_device (device_row engine device) true (tables_of engine hub) ≡ (
          if any (λ d. d.id == device.id) hub.devices
            || not (
                holds_if_set
                  (λ node. not (any (λ d. opt_eq d.external_node_id node) hub.devices))
                  device.external_node_id)
            || not (
                any (λ h. h.id == device.home_id) hub.homes
                && holds_if_set (λ room. any (λ r. r.id == room) hub.rooms) device.room_id)
          then none
          else some (tables_of engine (record hub { devices = hub.devices ++ device ∷ [] })))
  unfolding insert_device
  insert_device-hub device hub =
      let nodes =
        ap (λ (p : String → Bool). holds_if_set (λ node. not (p node)) device.external_node_id)
          (fun_ext λ node.
            any-map (device_row engine) (λ d. opt_eq d.external_node_id node) hub.devices) in
      let in_room =
        ap (λ (p : String → Bool). holds_if_set p device.room_id)
          (fun_ext λ room. any-map (room_row engine) (λ r. r.id == room) hub.rooms) in
      rw
        (
          any-map (device_row engine) (λ d. d.id == device.id) hub.devices,
          nodes,
          any-map (home_row engine) (λ r. r.id == device.home_id) hub.homes,
          in_room,
          map-append (device_row engine) hub.devices (device ∷ []),
        )
        refl

  pub create_device-Implements :
      (device : Device)
      → IsKept engine device.created_at × IsKept engine device.updated_at
      → Implements engine (create_device engine device) ((spec engine).create_device device)
  unfolding create_device
  create_device-Implements device kept hub r =
      changes "create device" (insert_device (device_row engine device)) _
        (λ h. record h { devices = h.devices ++ device ∷ [] }) hub refl
        (insert_device-hub device hub) r
        (record {
          homes = r.homes;
          rooms = r.rooms;
          devices = All-append _ hub.devices (device ∷ []) r.devices (kept, tt);
          states = r.states;
          clients = r.clients;
        })

  insert_client-hub :
      (client : LocalClient) (hub : Hub F)
      → insert_client (client_row engine client) true (tables_of engine hub) ≡ (
          if any (λ c. c.id == client.id || c.token_hash == client.token_hash) hub.clients
          then none
          else some (tables_of engine (record hub { clients = hub.clients ++ client ∷ [] })))
  unfolding insert_client
  insert_client-hub client hub =
      rw
        (
          any-map (client_row engine) (λ r. r.id == client.id || r.token_hash == client.token_hash)
              hub.clients,
          map-append (client_row engine) hub.clients (client ∷ []),
        )
        refl

  pub create_local_client-Implements :
      (client : LocalClient)
      → IsKept engine client.created_at × IsKept engine client.last_used
      → Implements engine
          (create_local_client engine client)
          ((spec engine).create_local_client client)
  unfolding create_local_client
  create_local_client-Implements client kept hub r =
      changes "create local client" (insert_client (client_row engine client)) _
        (λ h. record h { clients = h.clients ++ client ∷ [] }) hub refl
        (insert_client-hub client hub) r
        (record {
          homes = r.homes;
          rooms = r.rooms;
          devices = r.devices;
          states = r.states;
          clients = All-append _ hub.clients (client ∷ []) r.clients (kept, tt);
        })
