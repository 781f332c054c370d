-- ===== src/Storage/Tables.antt =====
-- The tables of the schema in internal/storage/sqlite/sqlite.go, and the SQL statements of the
-- package as functions of them. A statement that breaks a constraint is `none`. References between
-- tables are checked only on a connection whose foreign_keys pragma is on, the first argument.
use Prim.Native.String.{compare}
use text.Mathlib.Text.{is_le}
use manisa_app.Prelude.{
  ℕ, String, Bool, true, false, ◌&&◌, ◌||◌, not, Option, none, some, List, [], ◌∷◌, ◌++◌, ◌==◌,
  nat_eq, any, if◌then◌else◌,
}

pub record HomeRow : Type 0 where
  pub id : String
  pub name : String
  pub created_at : String
  pub updated_at : String

pub record RoomRow : Type 0 where
  pub id : String
  pub home_id : String
  pub name : String
  pub created_at : String
  pub updated_at : String

pub record DeviceRow : Type 0 where
  pub id : String
  pub home_id : String
  pub room_id : Option String
  pub name : String
  pub product_type : String
  pub transport : String
  pub external_node_id : Option String
  pub created_at : String
  pub updated_at : String

pub record StateRow : Type 0 where
  pub device_id : String
  pub endpoint : ℕ
  pub capability : String
  pub value_json : String
  pub source : String
  pub updated_at : String

pub record ClientRow : Type 0 where
  pub id : String
  pub name : String
  pub token_hash : String
  pub created_at : String
  pub last_used : String

-- The rows of each table in the order in which they were inserted.
pub record Tables : Type 0 where
  pub homes : List HomeRow
  pub rooms : List RoomRow
  pub devices : List DeviceRow
  pub device_states : List StateRow
  pub local_clients : List ClientRow

-- the database after `migrate`
abbrev pub empty_tables : Tables
empty_tables = record {
  homes = [];
  rooms = [];
  devices = [];
  device_states = [];
  local_clients = [];
}

module _ {ℓ} {A : Type ℓ} where
  -- SELECT … WHERE p, the first row
  abbrev pub find : (A → Bool) → List A → Option A
  find p [] = none
  find p (x ∷ xs) = if p x then some x else find p xs

  -- SELECT … WHERE p
  abbrev pub select : (A → Bool) → List A → List A
  select p [] = []
  select p (x ∷ xs) = let rest = select p xs in if p x then x ∷ rest else rest

  unfoldable pub insert_sorted : (A → A → Bool) → A → List A → List A
  insert_sorted le x [] = x ∷ []
  insert_sorted le x (y ∷ ys) =
      let later = insert_sorted le x ys in if le x y then x ∷ y ∷ ys else y ∷ later

  -- ORDER BY. SQLite does not document the order of rows that compare equal; here they stay in the order
  -- of insertion.
  unfoldable pub order_by : (A → A → Bool) → List A → List A
  unfolding insert_sorted
  order_by le [] = []
  order_by le (x ∷ xs) = insert_sorted le x (order_by le xs)

-- a ≤ b in SQLite's BINARY collation
abbrev pub text_le : String → String → Bool
text_le a b = is_le (compare a b)

abbrev pub opt_eq : Option String → String → Bool
opt_eq none s = false
opt_eq (some t) s = t == s

abbrev pub has_home : Tables → String → Bool
has_home t id = any (λ r. r.id == id) t.homes

abbrev pub has_room : Tables → String → Bool
has_room t id = any (λ r. r.id == id) t.rooms

abbrev pub has_device : Tables → String → Bool
has_device t id = any (λ r. r.id == id) t.devices

abbrev pub has_node : Tables → String → Bool
has_node t node = any (λ r. opt_eq r.external_node_id node) t.devices

-- of a nullable column
abbrev pub holds_if_set : (String → Bool) → Option String → Bool
holds_if_set p none = true
holds_if_set p (some s) = p s

-- INSERT INTO homes
unfoldable pub insert_home : HomeRow → Bool → Tables → Option Tables
insert_home row fk t =
    if has_home t row.id then none else some (record t { homes = t.homes ++ row ∷ [] })

-- INSERT INTO rooms
unfoldable pub insert_room : RoomRow → Bool → Tables → Option Tables
insert_room row fk t =
    if has_room t row.id || (fk && not (has_home t row.home_id))
    then none
    else some (record t { rooms = t.rooms ++ row ∷ [] })

-- INSERT INTO devices, with the unique index on external_node_id
unfoldable pub insert_device : DeviceRow → Bool → Tables → Option Tables
insert_device row fk t =
    if has_device t row.id
      || not (holds_if_set (λ node. not (has_node t node)) row.external_node_id)
      || (fk && not (has_home t row.home_id && holds_if_set (has_room t) row.room_id))
    then none
    else some (record t { devices = t.devices ++ row ∷ [] })

-- the primary key of device_states
unfoldable pub same_key : StateRow → StateRow → Bool
same_key a b =
    a.device_id == b.device_id && nat_eq a.endpoint b.endpoint && a.capability == b.capability

-- DO UPDATE SET value_json=excluded.value_json, source=…, updated_at=…
unfoldable pub overwrite : StateRow → List StateRow → List StateRow
overwrite row [] = []
overwrite row (r ∷ rs) =
    (if same_key r row
      then record r {
        value_json = row.value_json;
        source = row.source;
        updated_at = row.updated_at;
      }
      else r)
    ∷ overwrite row rs

-- INSERT INTO device_states … ON CONFLICT(device_id,endpoint,capability) DO UPDATE
unfoldable pub upsert_state : StateRow → Bool → Tables → Option Tables
upsert_state row fk t =
    if any (λ r. same_key r row) t.device_states
    then some (record t { device_states = overwrite row t.device_states })
    else if fk && not (has_device t row.device_id)
    then none
    else some (record t { device_states = t.device_states ++ row ∷ [] })

-- INSERT INTO local_clients
unfoldable pub insert_client : ClientRow → Bool → Tables → Option Tables
insert_client row fk t =
    if any (λ r. r.id == row.id || r.token_hash == row.token_hash) t.local_clients
    then none
    else some (record t { local_clients = t.local_clients ++ row ∷ [] })

unfoldable pub touch_rows : String → String → List ClientRow → List ClientRow
touch_rows id at [] = []
touch_rows id at (r ∷ rs) =
    (if r.id == id then record r { last_used = at } else r) ∷ touch_rows id at rs

-- UPDATE local_clients SET last_used=? WHERE id=?
unfoldable pub touch_client : String → String → Bool → Tables → Option Tables
touch_client id at fk t = some (record t { local_clients = touch_rows id at t.local_clients })
