-- ===== src/System/Served.antt =====
-- A paired client in front of internal/httpapi/router.go, however long ago it was paired.
use manisa_app.Prelude.{
  ℕ, ◌<◌, ◌≡◌, refl, sym, ap, ◌∙◌, String, Bool, false, Option, some, List, length, inl, inr,
  Option-cases,
}
use manisa_app.Float.{Float64}
use manisa_app.Domain.{Time, LocalClient}
use manisa_app.Domain.Error.{ok}
use manisa_app.Application.World.{Service, World}
use manisa_app.Storage.Tables.{ClientRow, Tables, touch_client, touch_rows}
use manisa_app.Storage.Engine.{Engine, Outcome, failed, ran, Db, exec, query}
use manisa_app.Storage.States.{get_local_client_by_token_hash, touch_local_client}
use manisa_app.Storage.Integrity.{IsKeyed}
use manisa_app.Auth.RoundTrip.{by_hash, authenticate_lem}
use manisa_app.Auth.{AuthService, pair, authenticate}
use manisa_app.Matterjs.Wire.{Dial, Net}
use manisa_app.Matterjs.Client.{Json}
use manisa_app.HttpApi.Requests.{Request}
use manisa_app.HttpApi.Handlers.{Env, bearer, is_public, serve, serve_mux}
use manisa_app.System.{Run, app, auth_service, started}
use manisa_app.System.Lasting.{paired_client_stays}

-- The tables are the same but for the clients.
abbrev pub OnlyClients : Tables → Tables → Type 0
OnlyClients t t' = (clients : List ClientRow) × (t' ≡ record t { local_clients = clients })

touch-OnlyClients :
    {F : Type 0} (engine : Engine F) (id : String) (db : Db)
    → OnlyClients db.tables (touch_local_client engine id db).1.tables
unfolding touch_local_client exec touch_client
touch-OnlyClients engine id db = by_outcome (engine.outcome db.statements) refl
  where
    by_outcome :
        (o : Outcome)
        → engine.outcome db.statements ≡ o
        → OnlyClients db.tables (touch_local_client engine id db).1.tables
    by_outcome (failed text) e = (db.tables.local_clients, rw e refl)
    by_outcome (ran fk) e = (
      touch_rows id (engine.format_time (engine.clock db.statements)) db.tables.local_clients,
      rw e refl,
    )

lookup-tables :
    {F : Type 0} (engine : Engine F) (hash : String) (db : Db)
    → (get_local_client_by_token_hash engine hash db).1.tables ≡ db.tables
unfolding get_local_client_by_token_hash query
lookup-tables engine hash db = by_outcome (engine.outcome db.statements) refl
  where
    by_outcome :
        (o : Outcome)
        → engine.outcome db.statements ≡ o
        → (get_local_client_by_token_hash engine hash db).1.tables ≡ db.tables
    by_outcome (failed text) e = rw e refl
    by_outcome (ran fk) e = elim (Option-cases (by_hash hash db.tables)) [
      | inl missing ↦ rw (e, missing) refl
      | inr (row, found) ↦ rw (e, found) refl
    ]

-- A request with a token that authenticates its client goes to the mux.
pub serve_admitted :
    {S C F : Type 0} ⦃fl : Float64 F⦄ (svc : Service S C F) (auth : AuthService S F) (env : Env S F)
    (req : Request) (token : String) (client : LocalClient) (w : World S C F)
    → is_public req.path ≡ false
    → bearer req.authorization ≡ some token
    → (authenticate env.sum auth token w.db).0 ≡ ok client
    → serve svc auth env req w
      ≡ serve_mux svc auth env req (record w { db = (authenticate env.sum auth token w.db).1 })
unfolding serve
serve_admitted svc auth env req token client w closed sent known =
    rw (serve, closed, sent, known) refl

module _ {F : Type 0} ⦃fl : Float64 F⦄ (engine : Engine F) (json : Json)
    (pairing_code : String) where
  pub authenticate-OnlyClients :
      (sum : String → List ℕ) (token : String) (client : LocalClient) (db : Db)
      → (authenticate sum (auth_service engine pairing_code) token db).0 ≡ ok client
      → OnlyClients db.tables
          (authenticate sum (auth_service engine pairing_code) token db).1.tables
  authenticate-OnlyClients sum token client db known =
      let auth = auth_service engine pairing_code in
      elim (authenticate_lem sum auth token db _ _ refl) [
        | inl refused ↦ cc
        | inr (c, s1, full, found, same, left) ↦
            let as_before : s1.tables ≡ db.tables =
              sym (ap (λ r. r.1.tables) found) ∙ lookup-tables engine _ db in
            let (clients, changed) = touch-OnlyClients engine c.id s1 in
            (clients, ap (λ (d : Db). d.tables) left ∙ changed ∙ (rw as_before refl))
      ]

  -- In any run of the system after a start on a database with unique keys: once a client was paired,
  -- with at least one random byte for its token, every later request with its token to a path that needs
  -- one is given to the mux, in a database in which nothing but the clients has changed, whatever has
  -- happened in between, if the statement that looks the client up runs.
  pub paired_client_served :
      (env : Env Db F) (req : Request) (t : Tables) (dials : List Dial) (now : Time)
      (bytes : List ℕ) (random : Option (List ℕ)) (code name token : String) (client : LocalClient)
      (w v : World Db (Net F) F) (db : Db) (fk : Bool)
      → IsKeyed t
      → Run (app engine json) (auth_service engine pairing_code) (started engine t dials) w
      → 0 < length bytes
      → pair env.sum (auth_service engine pairing_code) now (some bytes) random code name w.db
        ≡ (ok (client, token), db)
      → Run (app engine json) (auth_service engine pairing_code) (record w { db = db }) v
      → engine.outcome v.db.statements ≡ ran fk
      → is_public req.path ≡ false
      → bearer req.authorization ≡ some token
      → (db' : Db) × OnlyClients v.db.tables db'.tables
        × (serve (app engine json) (auth_service engine pairing_code) env req v
            ≡ serve_mux
                (app engine json)
                (auth_service engine pairing_code)
                env
                req
                (record v { db = db' }))
  paired_client_served env req t dials now bytes random code name token client w v db fk keyed
        before full paired after runs closed sent =
      let (c, known, same_id, same_name) =
        paired_client_stays engine json pairing_code t dials keyed env.sum now bytes random code
          name token client w v db fk before full paired after runs in
      (
        (authenticate env.sum (auth_service engine pairing_code) token v.db).1,
        authenticate-OnlyClients env.sum token c v.db known,
        serve_admitted _ _ env req token c v closed sent known,
      )
