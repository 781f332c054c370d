-- ===== src/Storage/Spec/Rows.antt =====
-- The tables that a Hub stands for, and the rows that read back as what they were written for.
use manisa_app.Prelude.{
  ℕ, ◌+◌, ◌≡◌, refl, String, Bool, true, false, Option, none, some, map, All, if◌then◌else◌,
}
use manisa_app.Value.{Value}
use manisa_app.Domain.{Time, Home, Room, Device, DeviceState, LocalClient}
use manisa_app.Domain.Error.{Exec}
use manisa_app.Application.World.{wrapping}
use manisa_app.Storage.Tables.{StateRow, Tables}
use manisa_app.Storage.Engine.{Engine, Db, ran, settle_statement, exec}
use manisa_app.Storage.Sqlite.{home_row, room_row, device_row}
use manisa_app.Storage.States.{state_row, client_row}
use manisa_app.Storage.Refine.{Survives}
use manisa_app.Storage.Spec.{Hub, ask, change}

module _ {F : Type 0} (engine : Engine F) where
  abbrev pub json_text : Option String → String
  json_text none = ""
  json_text (some encoded) = encoded

  abbrev pub row_of_state : DeviceState F → StateRow
  row_of_state s = state_row engine s (json_text (engine.marshal s.value))

  abbrev pub tables_of : Hub F → Tables
  tables_of hub = record {
    homes = map (home_row engine) hub.homes;
    rooms = map (room_row engine) hub.rooms;
    devices = map (device_row engine) hub.devices;
    device_states = map row_of_state hub.states;
    local_clients = map (client_row engine) hub.clients;
  }

  abbrev pub db_of : Hub F → Db
  db_of hub = record { tables = tables_of hub; statements = hub.asked }

  -- a time that is read back as it was written
  abbrev pub IsKept : Time → Type 0
  IsKept t = engine.parse_time (engine.format_time t) ≡ t

  -- What is read back at the same time, with a value that has the same text, if not the same type: Go's
  -- int is read back as a float64.
  pub record IsStored (s : DeviceState F) : Type 0 where
    pub encoded : String
    pub read : Value F
    pub written : engine.marshal s.value ≡ some encoded
    pub value : engine.unmarshal encoded ≡ some read
    pub again : engine.marshal read ≡ some encoded
    pub time : IsKept s.updated_at

  pub record IsReadable (hub : Hub F) : Type 0 where
    pub homes : All (λ (h : Home). IsKept h.created_at × IsKept h.updated_at) hub.homes
    pub rooms : All (λ (r : Room). IsKept r.created_at × IsKept r.updated_at) hub.rooms
    pub devices : All (λ (d : Device). IsKept d.created_at × IsKept d.updated_at) hub.devices
    pub states : All (Survives engine) hub.states
    pub clients : All (λ (c : LocalClient). IsKept c.created_at × IsKept c.last_used) hub.clients

  -- The method of the store does to the tables what the abstract one does to the hub that they stand
  -- for, and answers the same.
  abbrev pub Implements : {A : Type 0} → Exec Db A → Exec (Hub F) A → Type 0
  Implements m abstract =
      (hub : Hub F)
      → IsReadable hub
      → (m (db_of hub) ≡ ((abstract hub).0, db_of (abstract hub).1)) × IsReadable (abstract hub).1

  module _ (runs : (n : ℕ) → engine.outcome n ≡ ran true) where
    -- A statement that is refused, or makes the tables of the changed hub.
    pub exec-change :
        (text : String) (s : Bool → Tables → Option Tables) (refused : Bool) (f : Hub F → Hub F)
        (hub : Hub F)
        → (f (ask hub)).asked ≡ hub.asked + 1
        → s true (tables_of hub) ≡ (if refused then none else some (tables_of (f (ask hub))))
        → wrapping text (exec engine s) (db_of hub)
          ≡ ((change text refused f hub).0, db_of (change text refused f hub).1)
    unfolding exec
    exec-change text s true f hub counted e = rw (exec, runs hub.asked, settle_statement, e) refl
    exec-change text s false f hub counted e =
        rw (exec, runs hub.asked, settle_statement, e, counted) refl
