-- ===== src/Application/Homes.antt =====
-- Homes and rooms of internal/application/service.go. `now` is what the clock says, `random` what the
-- random source answers.
use manisa_app.Prelude.{ℕ, String, ◌||◌, Option, List, ◌==◌, if◌then◌else◌}
use manisa_app.Domain.{Time, Home, Room}
use manisa_app.Domain.Error.{Exec, invalid_input}
use manisa_app.Text.Trim.{trim_space}
use manisa_app.Platform.Id.{new_id}
use manisa_app.Application.World.{Service, World, pure, lift, raise, ◌>>=◌, ◌>>◌, on_store}

module _ {S C F : Type 0} (svc : Service S C F) where
  unfoldable pub create_home : Time → Option (List ℕ) → String → Exec (World S C F) Home
  create_home now random raw_name =
      let name = trim_space raw_name in
      if name == "" then raise invalid_input else do
        id ← lift (new_id random "home")
        let home : Home = record { id = id; name = name; created_at = now; updated_at = now }
        on_store (svc.store.create_home home)
        pure home

  unfoldable pub list_homes : Exec (World S C F) (List Home)
  list_homes = on_store svc.store.list_homes

  unfoldable pub create_room : Time → Option (List ℕ) → String → String → Exec (World S C F) Room
  create_room now random raw_home_id raw_name =
      let home_id = trim_space raw_home_id in
      let name = trim_space raw_name in
      if home_id == "" || name == "" then raise invalid_input else do
        id ← lift (new_id random "room")
        let room : Room = record {
          id = id;
          home_id = home_id;
          name = name;
          created_at = now;
          updated_at = now;
        }
        on_store (svc.store.create_room room)
        pure room

  unfoldable pub list_rooms : String → Exec (World S C F) (List Room)
  list_rooms home_id =
      if trim_space home_id == ""
      then raise invalid_input
      else on_store (svc.store.list_rooms home_id)
