-- ===== src/Storage/References.antt =====
-- References between the tables, and that statements keep them on a connection with foreign keys.
use manisa_app.Prelude.{
  ◌≡◌, refl, Bool, true, ◌&&◌, String, Option, none, some, List, [], ◌∷◌, ◌++◌, arith, any, All,
  ◌==◌, Bool-cases, inl, inr,
}
use manisa_app.Storage.Tables.{
  RoomRow, StateRow, Tables, has_home, has_room, has_device, holds_if_set, same_key, overwrite,
}
use manisa_app.Storage.Rows.{any-concat, All-concat, All-map}
use manisa_app.Storage.Statements.{
  Statement, Reach, migrated, next, homes, rooms, devices, states, clients, touches, inserted_home,
  inserted_room, inserted_device, inserted_client, upserted, touched,
}

-- Rooms and devices are of a home that there is, a device is in no room or in one that there is, and
-- states are of a device that there is.
pub record IsLinked (t : Tables) : Type 0 where
  pub rooms : All (λ r. has_home t r.home_id ≡ true) t.rooms
  pub devices :
      All (λ r. (has_home t r.home_id && holds_if_set (has_room t) r.room_id) ≡ true) t.devices
  pub states : All (λ r. has_device t r.device_id ≡ true) t.device_states

any-concat-true :
    {A : Type 0} (p : A → Bool) (xs : List A) (x : A)
    → any p xs ≡ true
    → any p (xs ++ x ∷ []) ≡ true
any-concat-true p xs x h = rw (any-concat p xs x, h)

room_kept :
    (t : Tables) (row : RoomRow) (room : Option String)
    → holds_if_set (has_room t) room ≡ true
    → holds_if_set (has_room (record t { rooms = t.rooms ++ row ∷ [] })) room ≡ true
room_kept t row none h = refl
room_kept t row (some id) h = any-concat-true _ t.rooms row h

overwrite-All :
    (P : String → Type 0) (row : StateRow) (rs : List StateRow)
    → All (λ r. P r.device_id) rs
    → All (λ r. P r.device_id) (overwrite row rs)
unfolding overwrite
overwrite-All P row [] h = tt
overwrite-All P row (r ∷ rs) h = elim (Bool-cases (same_key r row)) [
  | inl e ↦ rw e (h.0, overwrite-All P row rs h.1)
  | inr e ↦ rw e (h.0, overwrite-All P row rs h.1)
]

pub Statement-IsLinked : {t t' : Tables} → Statement true t t' → IsLinked t → IsLinked t'
Statement-IsLinked {t} {t'} (homes row h) k =
    let (_, e) = inserted_home row true t t' h in
    rw e (record {
      rooms = All-map _ _ t.rooms (λ r p. any-concat-true _ t.homes row p) k.rooms;
      devices =
          All-map _ _ t.devices
            (λ r p. ground (arith, any-concat-true (λ x. x.id == r.home_id) t.homes row)) k.devices;
      states = k.states;
    })
Statement-IsLinked {t} {t'} (rooms row h) k =
    let (_, home, e) = inserted_room row true t t' h in
    rw e (record {
      rooms = All-concat _ t.rooms row k.rooms (home refl);
      devices = All-map _ _ t.devices (λ r p. ground (arith, room_kept t row r.room_id)) k.devices;
      states = k.states;
    })
Statement-IsLinked {t} {t'} (devices row h) k =
    let (_, _, linked, e) = inserted_device row true t t' h in
    rw e (record {
      rooms = k.rooms;
      devices = All-concat _ t.devices row k.devices (linked refl);
      states = All-map _ _ t.device_states (λ r p. any-concat-true _ t.devices row p) k.states;
    })
Statement-IsLinked {t} {t'} (states row h) k = elim (upserted row true t t' h) [
  | inl e ↦ rw e (record {
    rooms = k.rooms;
    devices = k.devices;
    states = overwrite-All (λ id. has_device t id ≡ true) row t.device_states k.states;
  })
  | inr (_, device, e) ↦ rw e (record {
    rooms = k.rooms;
    devices = k.devices;
    states = All-concat _ t.device_states row k.states (device refl);
  })
]
Statement-IsLinked {t} {t'} (clients row h) k =
    let (_, e) = inserted_client row true t t' h in
    rw e (record { rooms = k.rooms; devices = k.devices; states = k.states })
Statement-IsLinked {t} {t'} (touches id at h) k =
    rw (touched id at true t t' h)
      (record { rooms = k.rooms; devices = k.devices; states = k.states })

-- Where every statement runs on the connection that `Open` prepared, rooms and devices are always of
-- a home that there is, devices in no room or in one that there is, and states of a device that there
-- is.
pub Reach-IsLinked : {t : Tables} → Reach true t → IsLinked t
Reach-IsLinked migrated = record { rooms = tt; devices = tt; states = tt }
Reach-IsLinked (next r s) = Statement-IsLinked s (Reach-IsLinked r)
