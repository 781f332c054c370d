-- ===== src/Storage/Statements.antt =====
-- The statements that change the tables, and what each has found and done when it succeeds.
use manisa_app.Prelude.{
  ◌⊎◌, ◌≡◌, Bool, true, false, not, ◌||◌, ◌&&◌, String, some, [], ◌∷◌, ◌++◌, arith, any, ◌==◌,
  Bool-cases, inl, inr,
}
use manisa_app.Storage.Tables.{
  HomeRow, RoomRow, DeviceRow, StateRow, ClientRow, Tables, empty_tables, has_home, has_room,
  has_device, has_node, holds_if_set, same_key, insert_home, insert_room, insert_device,
  upsert_state, insert_client, touch_client, overwrite, touch_rows,
}

-- The statements that the store executes, on a connection with foreign keys on or off.
pub data Statement : Bool → Tables → Tables → Type 0 where
  homes :
      (row : HomeRow) {fk : Bool} {t t' : Tables}
      → insert_home row fk t ≡ some t'
      → Statement fk t t'
  rooms :
      (row : RoomRow) {fk : Bool} {t t' : Tables}
      → insert_room row fk t ≡ some t'
      → Statement fk t t'
  devices :
      (row : DeviceRow) {fk : Bool} {t t' : Tables}
      → insert_device row fk t ≡ some t'
      → Statement fk t t'
  states :
      (row : StateRow) {fk : Bool} {t t' : Tables}
      → upsert_state row fk t ≡ some t'
      → Statement fk t t'
  clients :
      (row : ClientRow) {fk : Bool} {t t' : Tables}
      → insert_client row fk t ≡ some t'
      → Statement fk t t'
  touches :
      (id at : String) {fk : Bool} {t t' : Tables}
      → touch_client id at fk t ≡ some t'
      → Statement fk t t'

pub data Reach (fk : Bool) : Tables → Type 0 where
  migrated : Reach fk empty_tables
  next : {t t' : Tables} → Reach fk t → Statement fk t t' → Reach fk t'

-- What a statement that succeeds has found and done.
pub inserted_home :
    (row : HomeRow) (fk : Bool) (t t' : Tables)
    → insert_home row fk t ≡ some t'
    → (has_home t row.id ≡ false) × (t' ≡ record t { homes = t.homes ++ row ∷ [] })
unfolding insert_home
inserted_home row fk t t' h = ground arith

pub inserted_room :
    (row : RoomRow) (fk : Bool) (t t' : Tables)
    → insert_room row fk t ≡ some t'
    → (has_room t row.id ≡ false)
      × (fk ≡ true → has_home t row.home_id ≡ true)
      × (t' ≡ record t { rooms = t.rooms ++ row ∷ [] })
unfolding insert_room
inserted_room row fk t t' h = ground arith

pub inserted_device :
    (row : DeviceRow) (fk : Bool) (t t' : Tables)
    → insert_device row fk t ≡ some t'
    → (has_device t row.id ≡ false)
      × (holds_if_set (λ node. not (has_node t node)) row.external_node_id ≡ true)
      × (fk ≡ true → (has_home t row.home_id && holds_if_set (has_room t) row.room_id) ≡ true)
      × (t' ≡ record t { devices = t.devices ++ row ∷ [] })
unfolding insert_device
inserted_device row fk t t' h = ground arith

pub inserted_client :
    (row : ClientRow) (fk : Bool) (t t' : Tables)
    → insert_client row fk t ≡ some t'
    → (any (λ r. r.id == row.id || r.token_hash == row.token_hash) t.local_clients ≡ false)
      × (t' ≡ record t { local_clients = t.local_clients ++ row ∷ [] })
unfolding insert_client
inserted_client row fk t t' h = ground arith

-- an overwritten row, or a new one
pub upserted :
    (row : StateRow) (fk : Bool) (t t' : Tables)
    → upsert_state row fk t ≡ some t'
    → (t' ≡ record t { device_states = overwrite row t.device_states })
      ⊎ ((any (λ r. same_key r row) t.device_states ≡ false)
          × (fk ≡ true → has_device t row.device_id ≡ true)
          × (t' ≡ record t { device_states = t.device_states ++ row ∷ [] }))
unfolding upsert_state
upserted row fk t t' h = elim (Bool-cases (any (λ r. same_key r row) t.device_states)) [
  | inl old ↦ inl (ground arith)
  | inr new ↦ inr (ground arith)
]

pub touched :
    (id at : String) (fk : Bool) (t t' : Tables)
    → touch_client id at fk t ≡ some t'
    → t' ≡ record t { local_clients = touch_rows id at t.local_clients }
unfolding touch_client
touched id at fk t t' h = ground arith
