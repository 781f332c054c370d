-- ===== src/System/Lasting.antt =====
-- What the hub has once taken in stays: paired clients and registered devices.
use manisa_app.Prelude.{ℕ, ◌+◌, ◌<◌, ◌≡◌, refl, String, Bool, Option, some, List, length}
use manisa_app.Float.{Float64}
use manisa_app.Domain.{Time, LocalClient}
use manisa_app.Domain.Error.{ok}
use manisa_app.Application.World.{World}
use manisa_app.Storage.Tables.{DeviceRow, Tables}
use manisa_app.Storage.Engine.{Engine, Db, ran}
use manisa_app.Storage.Sqlite.{scan_device, get_device}
use manisa_app.Storage.States.{read_client}
use manisa_app.Storage.Statements.{Statement}
use manisa_app.Storage.Integrity.{IsKeyed}
use manisa_app.Storage.Lookups.{by_id, get_device_found}
use manisa_app.Storage.Keeping.{new_store-Preserves}
use manisa_app.Storage.Lasting.{IsPaired, Statement-by_id, Statement-IsPaired}
use manisa_app.Auth.{hash_token, pair, authenticate}
use manisa_app.Auth.RoundTrip.{pair_stored, client_found, authenticate_of}
use manisa_app.Matterjs.Wire.{Dial, Net}
use manisa_app.Matterjs.Client.{Json}
use manisa_app.System.{Run, Run-IsSound, app, auth_service, started, Run-IsKeyed}

module _ {F : Type 0} ⦃fl : Float64 F⦄ (engine : Engine F) (json : Json) (pairing_code : String)
    (t : Tables) (dials : List Dial) (keyed : IsKeyed t) where
  abbrev After : World Db (Net F) F → World Db (Net F) F → Type 0
  After w v = Run (app engine json) (auth_service engine pairing_code) w v

  -- what every statement keeps, in a run that goes on from one after the start
  lasts :
      (P : Tables → Type 0) (w v : World Db (Net F) F) (db : Db)
      → ((fk : Bool) (t t' : Tables) → Statement fk t t' → P t → P t')
      → After (started engine t dials) w
      → P db.tables
      → After (record w { db = db }) v
      → P v.db.tables
  lasts P w v db keeps before here after =
      let kept = new_store-Preserves engine P λ n fk t t' runs done. keeps fk t t' done in
      let ready = (Run-IsKeyed engine json pairing_code t dials w keyed before).1 in
      (Run-IsSound (app engine json) (auth_service engine pairing_code) (λ d. P d.tables) kept kept
        after (record { db = here; ready = ready })).db

  -- In any run of the system after a start on a database with unique keys: once a client was paired,
  -- with at least one random byte for its token, its token authenticates it, by its id and name, in
  -- every world that comes later, whatever has happened in between, if the statement of the lookup
  -- runs.
  pub paired_client_stays :
      (sum : String → List ℕ) (now : Time) (bytes : List ℕ) (random : Option (List ℕ))
      (code name token : String) (client : LocalClient) (w v : World Db (Net F) F) (db : Db)
      (fk : Bool)
      → After (started engine t dials) w
      → 0 < length bytes
      → pair sum (auth_service engine pairing_code) now (some bytes) random code name w.db
        ≡ (ok (client, token), db)
      → After (record w { db = db }) v
      → engine.outcome v.db.statements ≡ ran fk
      → (c : LocalClient) × ((authenticate sum (auth_service engine pairing_code) token v.db).0
          ≡ ok c)
        × (c.id ≡ client.id)
        × (c.name ≡ client.name)
  paired_client_stays sum now bytes random code name token client w v db fk before full paired after
        runs =
      let auth = auth_service engine pairing_code in
      let hash = hash_token sum auth token in
      let (stored, plain, not_blank, _, _) =
        pair_stored engine sum auth now bytes random code name token client w.db db refl full
          paired in
      let (row, found, id, named) =
        lasts (IsPaired hash client.id client.name) w v db
          (λ f t t' done. Statement-IsPaired hash client.id client.name done) before
          (_, stored, refl, refl) after in
      (
        read_client engine row,
        authenticate_of sum auth token (read_client engine row) v.db
            (record v.db { statements = v.db.statements + 1 }) plain not_blank
            (client_found engine hash row v.db fk runs found),
        id,
        named,
      )

  -- In any run of the system after a start on a database with unique keys: a device that is found by its
  -- id is found by it, with the same fields, in every world that comes later, whatever has happened in
  -- between, if the statement of the lookup runs.
  pub device_stays :
      (id : String) (row : DeviceRow) (w v : World Db (Net F) F) (fk : Bool)
      → After (started engine t dials) w
      → by_id id w.db.tables ≡ some row
      → After w v
      → engine.outcome v.db.statements ≡ ran fk
      → (get_device engine id v.db).0 ≡ ok (scan_device engine row)
  device_stays id row w v fk before found after runs = get_device_found engine id row v.db fk runs (
      lasts (λ t. by_id id t ≡ some row) w v w.db (λ f t t' done. Statement-by_id id row done)
        before found after)
