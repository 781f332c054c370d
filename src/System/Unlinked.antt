-- ===== src/System/Unlinked.antt =====
-- `Open` switches foreign keys on by one statement, through a pool of connections. Whether a room of a
-- home that there is not is refused hangs on the connection that its statement runs on.
use manisa_app.Prelude.{
  ℕ, suc, ap, ◌∙◌, nat_eq, ◌+◌, ◌≡◌, refl, ◌⊎◌, inl, inr, Bool, true, false, ◌||◌, ◌&&◌, String,
  Option, List, [], ◌∷◌, ◌++◌, arith, All, ◌==◌, if◌then◌else◌, Bool-cases,
}
use manisa_app.Domain.{Time, Room}
use manisa_app.Domain.Error.{Error, ok, err, wrapped, message}
use manisa_app.Matter.{Controller}
use manisa_app.Platform.Id.{new_id}
use manisa_app.Text.Trim.{trim_space}
use manisa_app.Application.World.{Service, World, new_service}
use manisa_app.Application.Homes.{create_room}
use manisa_app.Storage.Tables.{Tables, has_home, has_room, insert_room}
use manisa_app.Storage.Engine.{Engine, Db, ran, exec, settle_statement}
use manisa_app.Storage.Open.{pragmas}
use manisa_app.Storage.Sqlite
use manisa_app.Storage.Sqlite.{room_row}
use manisa_app.Storage.References.{IsLinked}
use manisa_app.Storage.States.{new_store}

All-last : {A : Type 0} (P : A → Type 0) (xs : List A) (x : A) → All P (xs ++ x ∷ []) → P x
All-last P [] x h = h.0
All-last P (y ∷ xs) x h = All-last P xs x h.1

-- whether one of the statements, of which the first is the i-th of the pool, has switched foreign keys
-- on for the connection `c`
abbrev pub is_switched_on : (ℕ → ℕ) → ℕ → List String → ℕ → Bool
is_switched_on connection i [] c = false
is_switched_on connection i (statement ∷ more) c =
    (statement == "PRAGMA foreign_keys=ON;" && nat_eq (connection i) c)
    || is_switched_on connection (suc i) more c

second_pragma :
    (connection : ℕ → ℕ) (c : ℕ) → is_switched_on connection 0 pragmas c ≡ nat_eq (connection 1) c
second_pragma connection c = elim (Bool-cases (nat_eq (connection 1) c)) [
  | inl same ↦ rw same refl
  | inr other ↦ rw other refl
]

-- A room of a home that is not there, with the clock, the id and the trimmed texts of the request.
abbrev pub stray : Time → String → String → String → Room
stray now id raw_home raw_name = record {
  id = id;
  home_id = trim_space raw_home;
  name = trim_space raw_name;
  created_at = now;
  updated_at = now;
}

module _ {C F : Type 0} (engine : Engine F) (matter : Option (Controller C F)) where
  abbrev pub hub_service : Service Db C F
  hub_service = new_service (new_store engine) matter

  unlinked_by :
      (room : Room) (t : Tables)
      → has_home t room.home_id ≡ false
      → ¬ IsLinked (record t { rooms = t.rooms ++ room_row engine room ∷ [] })
  unlinked_by room t no_home linked =
      let last =
        All-last (λ r. has_home t r.home_id ≡ true) t.rooms (room_row engine room) linked.rooms in
      ground arith

  stored :
      (room : Room) (fk : Bool) (db : Db)
      → engine.outcome db.statements ≡ ran fk
      → has_home db.tables room.home_id ≡ false
      → Sqlite.create_room engine room db ≡ (
          if has_room db.tables room.id || fk
          then (
            err (wrapped "create room" (message "constraint failed")),
            record db { statements = db.statements + 1 },
          )
          else (
            ok tt,
            record {
              tables = record db.tables { rooms = db.tables.rooms ++ room_row engine room ∷ [] };
              statements = db.statements + 1;
            },
          ))
  unfolding Sqlite.create_room exec insert_room
  stored room fk db runs no_home = elim (Bool-cases (has_room db.tables room.id)) [
    | inl taken ↦ rw (Sqlite.create_room, exec, runs, settle_statement, insert_room, taken) refl
    | inr free ↦ elim (Bool-cases fk) [
      | inl on ↦
          rw (Sqlite.create_room, exec, runs, settle_statement, insert_room, free, on, no_home) refl
      | inr off ↦ rw (Sqlite.create_room, exec, runs, settle_statement, insert_room, free, off) refl
    ]
  ]

  create_room_at :
      (now : Time) (random : Option (List ℕ)) (id raw_home raw_name : String) (fk : Bool)
      (w : World Db C F)
      → new_id random "room" ≡ ok id
      → (trim_space raw_home == "") ≡ false
      → (trim_space raw_name == "") ≡ false
      → has_home w.db.tables (trim_space raw_home) ≡ false
      → engine.outcome w.db.statements ≡ ran fk
      → let (r, w') = create_room hub_service now random raw_home raw_name w in
        let room = stray now id raw_home raw_name in
        (((has_room w.db.tables id || fk) ≡ true)
          × ((e : Error) × (r ≡ err e))
          × (w'.db.tables ≡ w.db.tables))
        ⊎ (((has_room w.db.tables id || fk) ≡ false)
            × (r ≡ ok room)
            × (w'.db.tables
                ≡ record w.db.tables { rooms = w.db.tables.rooms ++ room_row engine room ∷ [] })
            × (¬ IsLinked w'.db.tables))
  unfolding create_room
  create_room_at now random id raw_home raw_name fk w fresh home name no_home runs =
      let room = stray now id raw_home raw_name in
      let done = stored room fk w.db runs no_home in
      elim (Bool-cases (has_room w.db.tables id || fk)) [
        | inl refused ↦
            rw (create_room, home, name, fresh, done, refused)
              (inl (refl, (wrapped "create room" (message "constraint failed"), refl), refl))
        | inr accepted ↦
            rw (create_room, home, name, fresh, done, accepted)
              (inr (refl, refl, refl, unlinked_by room w.db.tables no_home))
      ]

  -- The pool of database/sql gives the i-th statement, counted from the first of `Open`, to the
  -- connection `connection i`. Over SQLite, take a request for a room that is not blank and names a home
  -- that there is not, where its statement, the n-th, runs; a connection has foreign keys on, as SQLite
  -- documents, if `Open` has run the pragma on it. If that is the connection of the second of Open's
  -- pragmas, or the id is taken, the answer is an error and the tables are as before. On any other
  -- connection, with an id that is not taken, the answer is the room, it is stored, and the tables are
  -- not linked any more.
  pub create_room_unlinked :
      (connection : ℕ → ℕ) (n : ℕ) (now : Time) (random : Option (List ℕ))
      (id raw_home raw_name : String) (w : World Db C F)
      → new_id random "room" ≡ ok id
      → (trim_space raw_home == "") ≡ false
      → (trim_space raw_name == "") ≡ false
      → has_home w.db.tables (trim_space raw_home) ≡ false
      → engine.outcome w.db.statements ≡ ran (is_switched_on connection 0 pragmas (connection n))
      → let (r, w') = create_room hub_service now random raw_home raw_name w in
        let room = stray now id raw_home raw_name in
        (((has_room w.db.tables id || nat_eq (connection 1) (connection n)) ≡ true)
          × ((e : Error) × (r ≡ err e))
          × (w'.db.tables ≡ w.db.tables))
        ⊎ (((has_room w.db.tables id || nat_eq (connection 1) (connection n)) ≡ false)
            × (r ≡ ok room)
            × (w'.db.tables
                ≡ record w.db.tables { rooms = w.db.tables.rooms ++ room_row engine room ∷ [] })
            × (¬ IsLinked w'.db.tables))
  create_room_unlinked connection n now random id raw_home raw_name w fresh home name no_home runs =
      create_room_at now random id raw_home raw_name (nat_eq (connection 1) (connection n)) w fresh
        home name no_home (runs ∙ ap ran (second_pragma connection (connection n)))
