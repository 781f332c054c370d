-- ===== src/Storage/Refine/Runs.antt =====
-- Writes one after the other, and then a query: the store does what the map does.
use manisa_app.Prelude.{◌≡◌, sym, ap, ◌∙◌, Bool, String, List, [], ◌∷◌}
use manisa_app.Domain.{DeviceState}
use manisa_app.Domain.Error.{ok}
use manisa_app.Storage.Engine.{Engine, Db, ran}
use manisa_app.Storage.States.{upsert_device_state, list_device_states}
use manisa_app.Storage.Statements.{states}
use manisa_app.Storage.Integrity.{IsKeyed, Statement-IsKeyed}
use manisa_app.Storage.Refine.{
  States, put, view, Survives, Lists, upserted_row, view-upsert_device_state,
}
use manisa_app.Storage.Refine.Listed.{list_device_states-Lists}

-- the writes to the map, the first first
abbrev pub put_all : {F : Type 0} → List (DeviceState F) → States F → States F
put_all [] m = m
put_all (s ∷ ss) m = put_all ss (put s m)

module _ {F : Type 0} (engine : Engine F) where
  -- The writes succeed one after the other, and what they write reads back as it was written.
  abbrev pub Writes : Db → List (DeviceState F) → Db → Type 0
  Writes db [] db' = db ≡ db'
  Writes db (s ∷ ss) db' =
      Survives engine s
      × ((v : Db) × (upsert_device_state engine s db ≡ (ok tt, v)) × Writes v ss db')

  upsert-IsKeyed :
      (s : DeviceState F) (db v : Db)
      → Survives engine s
      → upsert_device_state engine s db ≡ (ok tt, v)
      → IsKeyed db.tables
      → IsKeyed v.tables
  upsert-IsKeyed s db v k h keyed =
      let (fk, done) = upserted_row engine s db v k h in Statement-IsKeyed (states _ done) keyed

  writes :
      (ss : List (DeviceState F)) (db db' : Db)
      → Writes db ss db'
      → IsKeyed db.tables
      → (view engine db'.tables ≡ put_all ss (view engine db.tables)) × IsKeyed db'.tables
  writes [] db db' e keyed = (ap (λ (d : Db). view engine d.tables) (sym e), rw (← e) keyed)
  writes (s ∷ ss) db db' (k, (v, h, rest)) keyed =
      let (later, kept) = writes ss v db' rest (upsert-IsKeyed s db v k h keyed) in
      (later ∙ ap (put_all ss) (view-upsert_device_state engine s db v k h), kept)

  -- Over tables whose keys are unique: after writes of device states that succeed and whose values and
  -- times read back as they were written, a query of a device's states that runs and whose rows can be
  -- decoded lists what the map of states holds for the device after the same writes, all of it and
  -- nothing else, each state once and with ascending endpoints.
  pub list_device_states_refines :
      (ss : List (DeviceState F)) (device : String) (db db' db'' : Db) (fk : Bool)
      (listed : List (DeviceState F))
      → IsKeyed db.tables
      → Writes db ss db'
      → engine.outcome db'.statements ≡ ran fk
      → list_device_states engine device db' ≡ (ok listed, db'')
      → Lists engine (put_all ss (view engine db.tables)) device listed
  list_device_states_refines ss device db db' db'' fk listed keyed ws runs h =
      let (same, kept) = writes ss db db' ws keyed in
      rw (← same) (list_device_states-Lists engine device db' db'' fk listed runs kept.states h).0
