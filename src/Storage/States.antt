-- ===== src/Storage/States.antt =====
-- store.go and auth_store.go of internal/storage/sqlite, continued: device states and clients, and
-- the store as an implementation of the interface.
use manisa_app.Prelude.{
  String, Bool, ◌&&◌, ◌||◌, Option, none, some, List, [], ◌∷◌, ◌==◌, nat_eq, ltb,
}
use manisa_app.Domain.{DeviceState, LocalClient}
use manisa_app.Domain.Error.{Exec, Result, ok, err, message, sentinel, not_found, wrapped}
use manisa_app.Domain.Store.{Store}
use manisa_app.Application.World.{wrapping, lift, pure, ◌>>=◌}
use manisa_app.Storage.Tables.{
  StateRow, ClientRow, find, select, order_by, text_le, upsert_state, insert_client, touch_client,
}
use manisa_app.Storage.Engine.{Engine, Db, exec, query}
use manisa_app.Storage.Sqlite.{
  create_home, list_homes, create_room, list_rooms, create_device, get_device,
  get_device_by_external_node_id, list_devices,
}

-- ORDER BY endpoint,capability
abbrev pub state_le : StateRow → StateRow → Bool
state_le a b =
    ltb a.endpoint b.endpoint || (nat_eq a.endpoint b.endpoint && text_le a.capability b.capability)

module _ {F : Type 0} (engine : Engine F) where
  abbrev pub state_row : DeviceState F → String → StateRow
  state_row s encoded = record {
    device_id = s.device_id;
    endpoint = s.endpoint;
    capability = s.capability;
    value_json = encoded;
    source = s.source;
    updated_at = engine.format_time s.updated_at;
  }

  unfoldable pub upsert_encoded : DeviceState F → Option String → Exec Db Unit
  upsert_encoded state none = lift (err (wrapped "encode device state" (message "json")))
  upsert_encoded state (some encoded) =
      wrapping "upsert device state" (exec engine (upsert_state (state_row state encoded)))

  unfoldable pub upsert_device_state : DeviceState F → Exec Db Unit
  upsert_device_state state = upsert_encoded state (engine.marshal state.value)

  -- one round of the loop over the rows
  unfoldable pub decode_row : StateRow → Option (DeviceState F)
  decode_row r = elim (engine.unmarshal r.value_json) [
    | none ↦ none
    | some value ↦ some (record {
      device_id = r.device_id;
      endpoint = r.endpoint;
      capability = r.capability;
      value = value;
      source = r.source;
      updated_at = engine.parse_time r.updated_at;
    })
  ]

  abbrev prepend :
      Option (DeviceState F) → Result (List (DeviceState F)) → Result (List (DeviceState F))
  prepend none rest = err (wrapped "decode device state" (message "json"))
  prepend (some s) (ok rest) = ok (s ∷ rest)
  prepend (some s) (err e) = err e

  unfoldable pub decode_rows : List StateRow → Result (List (DeviceState F))
  decode_rows [] = ok []
  decode_rows (r ∷ rs) = prepend (decode_row r) (decode_rows rs)

  unfoldable pub list_device_states : String → Exec Db (List (DeviceState F))
  list_device_states device_id = do
    rows ← wrapping "list device states" (
        query engine
          (λ t. order_by state_le (select (λ r. r.device_id == device_id) t.device_states)))
    lift (decode_rows rows)

  abbrev pub client_row : LocalClient → ClientRow
  client_row c = record {
    id = c.id;
    name = c.name;
    token_hash = c.token_hash;
    created_at = engine.format_time c.created_at;
    last_used = engine.format_time c.last_used;
  }

  abbrev pub read_client : ClientRow → LocalClient
  read_client r = record {
    id = r.id;
    name = r.name;
    token_hash = r.token_hash;
    created_at = engine.parse_time r.created_at;
    last_used = engine.parse_time r.last_used;
  }

  unfoldable pub create_local_client : LocalClient → Exec Db Unit
  create_local_client client =
      wrapping "create local client" (exec engine (insert_client (client_row client)))

  abbrev pub found_client : Option ClientRow → Exec Db LocalClient
  found_client none = lift (err (sentinel not_found))
  found_client (some r) = pure (read_client r)

  unfoldable pub get_local_client_by_token_hash : String → Exec Db LocalClient
  get_local_client_by_token_hash token_hash = do
    row ←
        wrapping "get local client"
          (query engine (λ t. find (λ r. r.token_hash == token_hash) t.local_clients))
    found_client row

  unfoldable pub touch_local_client : String → Exec Db Unit
  touch_local_client client_id db =
      exec engine (touch_client client_id (engine.format_time (engine.clock db.statements))) db

  -- NewStore
  abbrev pub new_store : Store Db F
  new_store = record {
    create_home = create_home engine;
    list_homes = list_homes engine;
    create_room = create_room engine;
    list_rooms = list_rooms engine;
    create_device = create_device engine;
    get_device = get_device engine;
    get_device_by_external_node_id = get_device_by_external_node_id engine;
    list_devices = list_devices engine;
    upsert_device_state = upsert_device_state;
    list_device_states = list_device_states;
    create_local_client = create_local_client;
    get_local_client_by_token_hash = get_local_client_by_token_hash;
    touch_local_client = touch_local_client;
  }
