-- ===== src/Tests/Pool.antt =====
-- A room of a home that there is not, over a pool of two connections.
use manisa_app.Prelude.{
  ℕ, ◌≡◌, refl, ◌⊎◌, ◌∷◌, [], ◌++◌, some, ◌||◌, true, false, ltb, nat_eq, if◌then◌else◌,
}
use manisa_app.Float.Ratio.{Ratio}
use manisa_app.Domain.Error.{Error, ok, err}
use manisa_app.Text.Trim.{trim_space}
use manisa_app.Platform.Id.{new_id, hex_encode}
use manisa_app.Application.Homes.{create_room}
use manisa_app.Storage.Tables.{has_room}
use manisa_app.Storage.Engine.{Engine, ran}
use manisa_app.Storage.Sqlite.{room_row}
use manisa_app.Storage.References.{IsLinked}
use manisa_app.System.Unlinked.{hub_service, stray, create_room_unlinked}
use manisa_app.Tests.Fixture.{engine, controller, world, tables}

-- After the four statements of `Open` the first connection is busy.
abbrev connection : ℕ → ℕ
connection i = if ltb i 4 then 0 else 1

abbrev second_connection : Engine Ratio
second_connection = record engine { outcome = λ n. ran false }

create_room_unlinked_example :
    let (r, w') =
      create_room
        (hub_service second_connection (some controller))
        40
        (some (9 ∷ []))
        " home_9"
        "Attic"
        world in
    let room = stray 40 "room_09" " home_9" "Attic" in
    (((has_room tables "room_09" || nat_eq 0 1) ≡ true)
      × ((e : Error) × (r ≡ err e))
      × (w'.db.tables ≡ tables))
    ⊎ (((has_room tables "room_09" || nat_eq 0 1) ≡ false)
        × (r ≡ ok room)
        × (w'.db.tables
            ≡ record tables { rooms = tables.rooms ++ room_row second_connection room ∷ [] })
        × (¬ IsLinked w'.db.tables))
unfolding trim_space new_id hex_encode
create_room_unlinked_example =
    create_room_unlinked second_connection (some controller) connection 4 40 (some (9 ∷ []))
      "room_09" " home_9" "Attic" world refl refl refl refl refl
