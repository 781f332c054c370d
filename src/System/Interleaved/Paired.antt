-- ===== src/System/Interleaved/Paired.antt =====
-- A paired client in front of internal/httpapi/router.go, while other goroutines use the store too.
use manisa_app.Prelude.{
  ℕ, ◌<◌, ◌≡◌, refl, ap, String, Bool, false, ◌==◌, Option, some, List, length, All,
}
use manisa_app.Float.{Float64}
use manisa_app.Domain.{Time, LocalClient}
use manisa_app.Domain.Error.{Result, ok, Exec}
use manisa_app.Application.EventBus.Delivery.{IsReady}
use manisa_app.Application.Shared.{Shared, turn, call_shared, turn-IsShared}
use manisa_app.Application.World.{World}
use manisa_app.Storage.Tables.{Tables}
use manisa_app.Storage.Engine.{Engine, Db, ran}
use manisa_app.Storage.States.{
  read_client, client_row, create_local_client, get_local_client_by_token_hash,
}
use manisa_app.Storage.Statements.{Statement}
use manisa_app.Storage.Lasting.{IsPaired, Statement-IsPaired}
use manisa_app.Storage.Effects.{Effects, start, next, ByStatements, shared_store-Preserves, Shares}
use manisa_app.Text.Trim.{trim_space}
use manisa_app.Auth.{hash_token, pair, authenticate}
use manisa_app.Auth.Keeping.{authenticate-Keeps}
use manisa_app.Auth.RoundTrip.{pair_created, created_client, client_found, authenticate_of}
use manisa_app.Matterjs.Wire.{Net}
use manisa_app.Matterjs.Client.{Json}
use manisa_app.HttpApi.Requests.{Request}
use manisa_app.HttpApi.Handlers.{Env, bearer, is_public, serve, serve_mux}
use manisa_app.System.Interleaved.{shared_app, shared_auth, After, Run-IsShared}
use manisa_app.System.Served.{serve_admitted}

call_shared_of :
    {S A : Type 0} (m : Exec S A) (s : Shared S) (r : Result A) (x : S)
    → m (turn s).state ≡ (r, x)
    → call_shared m s ≡ (r, record { state = x; others = (turn s).others })
call_shared_of m s r x h = rw h refl

module _ {F : Type 0} ⦃fl : Float64 F⦄ (engine : Engine F) (json : Json) (pairing_code : String)
    (runs : (n : ℕ) → (fk : Bool) × (engine.outcome n ≡ ran fk)) where
  -- A client that is paired can be authenticated, also when others have their turn before.
  authenticated :
      (sum : String → List ℕ) (token id name : String) (s : Shared Db)
      → trim_space token ≡ token
      → (token == "") ≡ false
      → IsPaired
          (hash_token sum (shared_auth engine pairing_code) token)
          id
          name
          (turn s).state.tables
      → (c : LocalClient) × ((authenticate sum (shared_auth engine pairing_code) token s).0 ≡ ok c)
        × (c.id ≡ id)
        × (c.name ≡ name)
  authenticated sum token id name s plain not_blank (row, found, same_id, same_name) =
      let auth = shared_auth engine pairing_code in
      let db = (turn s).state in
      let lookup =
        client_found engine (hash_token sum auth token) row db (runs db.statements).0
          (runs db.statements).1 found in
      (
        read_client engine row,
        authenticate_of sum auth token (read_client engine row) s _ plain not_blank (
            call_shared_of (get_local_client_by_token_hash engine (hash_token sum auth token)) s _ _
              lookup),
        same_id,
        same_name,
      )

  pair-IsPaired :
      (sum : String → List ℕ) (now : Time) (bytes : List ℕ) (random : Option (List ℕ))
      (code name token : String) (client : LocalClient) (s s' : Shared Db)
      → 0 < length bytes
      → pair sum (shared_auth engine pairing_code) now (some bytes) random code name s
        ≡ (ok (client, token), s')
      → IsPaired
          (hash_token sum (shared_auth engine pairing_code) token)
          client.id
          client.name
          s'.state.tables
        × (trim_space token ≡ token)
        × ((token == "") ≡ false)
  pair-IsPaired sum now bytes random code name token client s s' full paired =
      let auth = shared_auth engine pairing_code in
      let (stored, hashed, plain, not_blank, _, _) =
        pair_created sum auth now bytes random code name token client s s' full paired in
      let created : create_local_client engine client (turn s).state ≡ (ok tt, s'.state) =
        ap (λ (p : Result (Unit {0}) × Shared Db). (p.0, p.1.state)) stored in
      (
        (
          client_row engine client,
          rw (← hashed) (created_client engine client (turn s).state s'.state created),
          refl,
          refl,
        ),
        plain,
        not_blank,
      )

  -- Where every statement runs, and others have statements run between any two: once a client was
  -- paired, with at least one random byte for its token, every later request with its token to a path
  -- that needs one is given to the mux, whatever has happened in between and whatever the others do
  -- while it is authenticated; what has changed in the database since the pairing is done by
  -- statements.
  pub paired_client_served_shared :
      (env : Env (Shared Db) F) (req : Request) (now : Time) (bytes : List ℕ)
      (random : Option (List ℕ)) (code name token : String) (client : LocalClient)
      (w v : World (Shared Db) (Net F) F) (db : Shared Db)
      → IsReady w.events
      → 0 < length bytes
      → pair env.sum (shared_auth engine pairing_code) now (some bytes) random code name w.db
        ≡ (ok (client, token), db)
      → All (ByStatements engine) db.others
      → After engine json pairing_code (record w { db = db }) v
      → is_public req.path ≡ false
      → bearer req.authorization ≡ some token
      → (db' : Shared Db) × Effects engine db.state.tables db'.state.tables
        × (serve (shared_app engine json) (shared_auth engine pairing_code) env req v
            ≡ serve_mux
                (shared_app engine json)
                (shared_auth engine pairing_code)
                env
                req
                (record v { db = db' }))
  paired_client_served_shared env req now bytes random code name token client w v db ready full
        paired by after closed sent =
      let auth = shared_auth engine pairing_code in
      let hash = hash_token env.sum auth token in
      let (stored, plain, not_blank) =
        pair-IsPaired env.sum now bytes random code name token client w.db db full paired in
      let paired_now =
        Run-IsShared engine json pairing_code (IsPaired hash client.id client.name)
          (λ n fk t t' ran_to done. Statement-IsPaired hash client.id client.name done) after by
          ready stored in
      let found = turn-IsShared v.db paired_now.db in
      let (c, known, same_id, same_name) =
        authenticated env.sum token client.id client.name v.db plain not_blank found.state in
      let more =
        λ (n : ℕ) (fk : Bool) (t t' : Tables) (ran_to : engine.outcome n ≡ ran fk)
            (done : Statement fk t t') (before : Effects engine db.state.tables t).
          next n fk before ran_to done in
      let reached =
        Run-IsShared engine json pairing_code (Effects engine db.state.tables) more after by ready
          start in
      let kept = shared_store-Preserves engine (Effects engine db.state.tables) more in
      let left =
        (authenticate-Keeps env.sum auth (Shares engine (Effects engine db.state.tables) more) kept
            token).at
          v.db reached.db in
      (
        (authenticate env.sum auth token v.db).1,
        left.state,
        serve_admitted _ _ env req token c v closed sent known,
      )
