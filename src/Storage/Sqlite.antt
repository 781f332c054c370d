-- ===== src/Storage/Sqlite.antt =====
-- store.go and auth_store.go of internal/storage/sqlite. A time that does not parse is the zero time.
use manisa_app.Prelude.{String, Option, none, some, List, map, ◌==◌}
use manisa_app.Domain.{Home, Room, Device}
use manisa_app.Domain.Error.{Exec, err, sentinel, not_found}
use manisa_app.Application.World.{wrapping, lift, pure, ◌>>=◌}
use manisa_app.Storage.Tables.{
  HomeRow, RoomRow, DeviceRow, find, select, order_by, text_le, opt_eq, insert_home, insert_room,
  insert_device,
}
use manisa_app.Storage.Engine.{Engine, Db, exec, query}

module _ {F : Type 0} (engine : Engine F) where
  abbrev pub home_row : Home → HomeRow
  home_row h = record {
    id = h.id;
    name = h.name;
    created_at = engine.format_time h.created_at;
    updated_at = engine.format_time h.updated_at;
  }

  abbrev pub read_home : HomeRow → Home
  read_home r = record {
    id = r.id;
    name = r.name;
    created_at = engine.parse_time r.created_at;
    updated_at = engine.parse_time r.updated_at;
  }

  unfoldable pub create_home : Home → Exec Db Unit
  create_home home = wrapping "create home" (exec engine (insert_home (home_row home)))

  unfoldable pub list_homes : Exec Db (List Home)
  list_homes = wrapping "list homes" (
      query engine
        (λ t. map read_home (order_by (λ a b. text_le a.created_at b.created_at) t.homes)))

  abbrev pub room_row : Room → RoomRow
  room_row r = record {
    id = r.id;
    home_id = r.home_id;
    name = r.name;
    created_at = engine.format_time r.created_at;
    updated_at = engine.format_time r.updated_at;
  }

  abbrev pub read_room : RoomRow → Room
  read_room r = record {
    id = r.id;
    home_id = r.home_id;
    name = r.name;
    created_at = engine.parse_time r.created_at;
    updated_at = engine.parse_time r.updated_at;
  }

  unfoldable pub create_room : Room → Exec Db Unit
  create_room room = wrapping "create room" (exec engine (insert_room (room_row room)))

  unfoldable pub list_rooms : String → Exec Db (List Room)
  list_rooms home_id = wrapping "list rooms" (
      query engine (λ t. map read_room (
        order_by (λ a b. text_le a.created_at b.created_at)
          (select (λ r. r.home_id == home_id) t.rooms))))

  abbrev pub device_row : Device → DeviceRow
  device_row d = record {
    id = d.id;
    home_id = d.home_id;
    room_id = d.room_id;
    name = d.name;
    product_type = d.product_type;
    transport = d.transport;
    external_node_id = d.external_node_id;
    created_at = engine.format_time d.created_at;
    updated_at = engine.format_time d.updated_at;
  }

  -- scanDevice
  abbrev pub scan_device : DeviceRow → Device
  scan_device r = record {
    id = r.id;
    home_id = r.home_id;
    room_id = r.room_id;
    name = r.name;
    product_type = r.product_type;
    transport = r.transport;
    external_node_id = r.external_node_id;
    created_at = engine.parse_time r.created_at;
    updated_at = engine.parse_time r.updated_at;
  }

  unfoldable pub create_device : Device → Exec Db Unit
  create_device device = wrapping "create device" (exec engine (insert_device (device_row device)))

  -- sql.ErrNoRows
  abbrev pub found : Option DeviceRow → Exec Db Device
  found none = lift (err (sentinel not_found))
  found (some r) = pure (scan_device r)

  unfoldable pub get_device : String → Exec Db Device
  get_device device_id = do
    row ← wrapping "get device" (query engine (λ t. find (λ r. r.id == device_id) t.devices))
    found row

  unfoldable pub get_device_by_external_node_id : String → Exec Db Device
  get_device_by_external_node_id node = do
    row ←
        wrapping "get device by external node id"
          (query engine (λ t. find (λ r. opt_eq r.external_node_id node) t.devices))
    found row

  unfoldable pub list_devices : String → Exec Db (List Device)
  list_devices home_id = wrapping "list devices" (
      query engine (λ t. map scan_device (
        order_by (λ a b. text_le a.created_at b.created_at)
          (select (λ r. r.home_id == home_id) t.devices))))
