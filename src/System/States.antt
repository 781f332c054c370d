-- ===== src/System/States.antt =====
-- GET /api/v1/devices/{deviceID}/state of internal/httpapi/router.go, over the SQLite store.
use manisa_app.Prelude.{ℕ, ◌+◌, ◌≡◌, refl, ap, ◌∙◌, arith, String, Bool, false, some, List, ◌==◌}
use manisa_app.Float.{Float64}
use manisa_app.Domain.{Device, DeviceState, LocalClient}
use manisa_app.Domain.Error.{Exec, ok}
use manisa_app.Text.Trim.{trim_space}
use manisa_app.Application.World.{Service, World, ◌>>=◌}
use manisa_app.Application.Devices.{device_states}
use manisa_app.Storage.Tables.{DeviceRow, StateRow, Tables, select, order_by}
use manisa_app.Storage.Engine.{Engine, ran, Db, query_ran}
use manisa_app.Storage.Sqlite.{get_device, scan_device}
use manisa_app.Storage.States.{state_le, list_device_states, decode_rows}
use manisa_app.Storage.Lookups.{by_id}
use manisa_app.HttpApi.Requests.{Request}
use manisa_app.HttpApi.Handlers.{
  Env, Answer, respond, handle, some_states, bearer, is_public, serve, serve_mux,
}
use manisa_app.Auth.{AuthService, authenticate}
use manisa_app.HttpApi.Route.{state_of_device, route}
use manisa_app.Storage.Integrity.{IsKeyed}
use manisa_app.Storage.Refine.{view, Lists}
use manisa_app.Storage.Refine.Listed.{list_device_states-Lists}
use manisa_app.Text.Split.{split}
use manisa_app.System.Served.{authenticate-OnlyClients, serve_admitted}
use manisa_app.System.{app, auth_service}
use manisa_app.Matterjs.Client.{Json}
use manisa_app.Matterjs.Wire.{Net}

-- Over any store: the device is found, and then its states.
pub device_states_of :
    {S C F : Type 0} ⦃fl : Float64 F⦄ (svc : Service S C F) (id : String) (device : Device)
    (listed : List (DeviceState F)) (w : World S C F) (db db' : S)
    → (trim_space id == "") ≡ false
    → svc.store.get_device (trim_space id) w.db ≡ (ok device, db)
    → svc.store.list_device_states (trim_space id) db ≡ (ok listed, db')
    → device_states svc id w ≡ (ok listed, record w { db = db' })
unfolding device_states
device_states_of svc id device listed w db db' full found asked = ground arith

respond_ok :
    {S C F : Type 0} ⦃fl : Float64 F⦄ (svc : Service S C F) (auth : AuthService S F) (env : Env S F)
    {A : Type 0} (code : ℕ) (answer : A → Answer F) (m : Exec (World S C F) A) (w w' : World S C F)
    (a : A)
    → m w ≡ (ok a, w')
    → (respond svc env code answer m w).0 ≡ (code, answer a)
respond_ok svc auth env code answer m w w' a h = rw (respond, h) refl

module _ {F : Type 0} ⦃fl : Float64 F⦄ (engine : Engine F) (json : Json) (pairing_code : String)
    (runs : (n : ℕ) → (fk : Bool) × (engine.outcome n ≡ ran fk)) where
  -- the rows of a device's states, as they are listed
  abbrev pub rows_of : String → Tables → List StateRow
  rows_of device t = order_by state_le (select (λ r. r.device_id == device) t.device_states)

  list_ran :
      (device : String) (db : Db)
      → list_device_states engine device db ≡ (
        decode_rows engine (rows_of device db.tables),
        record db { statements = db.statements + 1 },
      )
  unfolding list_device_states
  list_ran device db =
      let asked =
        query_ran engine (rows_of device) db (runs db.statements).0 (runs db.statements).1 in
      rw (list_device_states, ◌>>=◌, asked) refl

  get_ran :
      (id : String) (row : DeviceRow) (db : Db)
      → by_id id db.tables ≡ some row
      → get_device engine id db
        ≡ (ok (scan_device engine row), record db { statements = db.statements + 1 })
  unfolding get_device
  get_ran id row db found =
      let asked = query_ran engine (by_id id) db (runs db.statements).0 (runs db.statements).1 in
      rw (asked, found) refl

  -- The states of a device that is registered are answered, where their rows can be decoded.
  state_answered :
      (env : Env Db F) (req : Request) (id : String) (row : DeviceRow)
      (listed : List (DeviceState F)) (w : World Db (Net F) F)
      → (trim_space id == "") ≡ false
      → by_id (trim_space id) w.db.tables ≡ some row
      → decode_rows engine (rows_of (trim_space id) w.db.tables) ≡ ok listed
      → (handle
          (app engine json)
          (auth_service engine pairing_code)
          env
          (state_of_device id)
          req
          w).0
        ≡ (200, some_states listed)
  unfolding handle
  state_answered env req id row listed w full found decodes =
      let db = record w.db { statements = w.db.statements + 1 } in
      let db' = record db { statements = db.statements + 1 } in
      let done =
        device_states_of (app engine json) id (scan_device engine row) listed w db db' full
          (get_ran (trim_space id) row w.db found)
          (list_ran (trim_space id) db ∙ rw decodes refl) in
      respond_ok (app engine json) (auth_service engine pairing_code) env 200 some_states
        (device_states (app engine json) id) w (record w { db = db' }) listed done

  -- Where every statement runs, and over tables with unique keys: a request for the state of a device,
  -- with a token that authenticates a client, is answered with the states that the map of states holds
  -- for the device, all of them and nothing else, each once and with ascending endpoints, if the device
  -- is registered and the rows can be decoded.
  pub state_served :
      (env : Env Db F) (req : Request) (token : String) (client : LocalClient) (id : String)
      (row : DeviceRow) (listed : List (DeviceState F)) (w : World Db (Net F) F)
      → IsKeyed w.db.tables
      → is_public req.path ≡ false
      → bearer req.authorization ≡ some token
      → (authenticate env.sum (auth_service engine pairing_code) token w.db).0 ≡ ok client
      → route req.method (split b'/' req.path) ≡ state_of_device id
      → (trim_space id == "") ≡ false
      → by_id (trim_space id) w.db.tables ≡ some row
      → decode_rows engine (rows_of (trim_space id) w.db.tables) ≡ ok listed
      → ((serve (app engine json) (auth_service engine pairing_code) env req w).0
          ≡ (200, some_states listed))
        × Lists engine (view engine w.db.tables) (trim_space id) listed
  unfolding serve_mux
  state_served env req token client id row listed w keyed closed sent known at full found decodes =
      let auth = auth_service engine pairing_code in
      let v = record w { db = (authenticate env.sum auth token w.db).1 } in
      let (clients, changed) =
        authenticate-OnlyClients engine json pairing_code env.sum token client w.db known in
      let passed = serve_admitted (app engine json) auth env req token client w closed sent known in
      let answered : (serve_mux (app engine json) auth env req v).0 ≡ (200, some_states listed) =
        rw at
          (state_answered env req id row listed v full (rw changed found) (rw changed decodes)) in
      let read = list_ran (trim_space id) w.db ∙ rw decodes refl in
      (
        ap (λ r. r.0) passed ∙ answered,
        (list_device_states-Lists engine (trim_space id) w.db
            (record w.db { statements = w.db.statements + 1 }) (runs w.db.statements).0 listed
            (runs w.db.statements).1 keyed.states read).0,
      )
