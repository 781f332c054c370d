-- ===== src/System.antt =====
-- The parts wired together as cmd/manisa-core/main.go does: the API, the event stream and the
-- subscribers act on one world, in any order.
pub mod Lasting
pub mod Boot
pub mod Served
pub mod States
pub mod Interleaved
pub mod Abstract
pub mod Unlinked
use manisa_app.Prelude.{ℕ, ◌≡◌, String, Bool, true, false, List, some}
use manisa_app.Float.{Float64}
use manisa_app.Domain.{Time}
use manisa_app.Domain.Error.{Result}
use manisa_app.Matter.{AttributeEvent}
use manisa_app.Application.EventBus.{new_event_bus, unsubscribe, receive}
use manisa_app.Application.EventBus.Delivery.{IsReady}
use manisa_app.Application.EventBus.Ready.{unsubscribe-IsReady, receive-IsReady, new-IsReady}
use manisa_app.Application.World.{Service, World, new_service}
use manisa_app.Application.Attributes.{apply_matter_attribute}
use manisa_app.Application.Keeps.Stores.{Preserves, IsSound}
use manisa_app.Application.Keeps.Methods.{apply_matter_attribute-Keeps}
use manisa_app.Storage.Tables.{Tables}
use manisa_app.Storage.Engine.{Engine, Db, ran}
use manisa_app.Storage.States.{new_store}
use manisa_app.Storage.Statements.{Statement, migrated}
use manisa_app.Storage.Integrity.{IsKeyed, Statement-IsKeyed, Reach-IsKeyed}
use manisa_app.Storage.References.{IsLinked, Statement-IsLinked, Reach-IsLinked}
use manisa_app.Storage.Keeping.{new_store-Preserves}
use manisa_app.Auth.{AuthService, new_auth}
use manisa_app.Matterjs.Wire.{Dial, Net, new_client}
use manisa_app.Matterjs.Client.{Json}
use manisa_app.Matterjs.Controller.{matter_controller}
use manisa_app.Matterjs.Listener.{EventJson}
use manisa_app.Matterjs.Stream.{listen_stream, listen_stream-Keeps}
use manisa_app.Process.Backoff.{Round, run_matter_events, run_matter_events-kept}
use manisa_app.HttpApi.Requests.{Request}
use manisa_app.HttpApi.Handlers.{Env, serve}
use manisa_app.HttpApi.Sound.{serve-Keeps}

module _ {S F : Type 0} ⦃fl : Float64 F⦄ (svc : Service S (Net F) F) (auth : AuthService S F) where
  -- `app.ApplyMatterAttribute` as the handler of the stream. The clock may have moved whenever the
  -- world has.
  abbrev pub handler :
      (World S (Net F) F → Time)
      → AttributeEvent F
      → World S (Net F) F
      → Result (Unit {0}) × World S (Net F) F
  handler clock event w = apply_matter_attribute svc (clock w) event w

  -- What can happen: a request is served; the loop that listens to Matter goes through some rounds;
  -- between other steps, one report is handled; the network and the client's calls change the fabric; a
  -- subscriber takes a value off its channel, or leaves.
  pub data Step : World S (Net F) F → World S (Net F) F → Type 0 where
    serves :
        (env : Env S F) (req : Request) (w : World S (Net F) F)
        → Step w (serve svc auth env req w).1
    listens :
        (json : EventJson F) (clock : World S (Net F) F → Time) (backoff : ℕ) (rounds : List Round)
        (w : World S (Net F) F)
        → Step w (run_matter_events (listen_stream json (some (handler clock))) backoff rounds w).1
    reports :
        (now : Time) (event : AttributeEvent F) (w : World S (Net F) F)
        → Step w (apply_matter_attribute svc now event w).1
    moves : (fabric : Net F) (w : World S (Net F) F) → Step w (record w { fabric = fabric })
    receives :
        (i : ℕ) (w : World S (Net F) F) → Step w (record w { events = (receive i w.events).1 })
    unsubscribes :
        (i : ℕ) (w : World S (Net F) F) → Step w (record w { events = unsubscribe i w.events })

  -- the worlds that can follow a first one
  pub data Run (w : World S (Net F) F) : World S (Net F) F → Type 0 where
    start : Run w w
    next : {u v : World S (Net F) F} → Run w u → Step u v → Run w v

  module _ (P : S → Type 0) (kept : Preserves svc.store P)
      (auth_kept : Preserves auth.store P) where
    Step-IsSound : {u v : World S (Net F) F} → Step u v → IsSound P u → IsSound P v
    Step-IsSound (serves env req w) h = (serve-Keeps svc auth env P kept auth_kept req).at w h
    Step-IsSound (listens json clock backoff rounds w) h =
        let stream = listen_stream-Keeps json P (handler clock) λ event. record {
          at = λ v k. (apply_matter_attribute-Keeps svc P kept (clock v) event).at v k;
        } in
        run_matter_events-kept _ (IsSound P) backoff rounds w stream.at h
    Step-IsSound (reports now event w) h =
        (apply_matter_attribute-Keeps svc P kept now event).at w h
    Step-IsSound (moves fabric w) h = record { db = h.db; ready = h.ready }
    Step-IsSound (receives i w) h = record { db = h.db; ready = receive-IsReady i w.events h.ready }
    Step-IsSound (unsubscribes i w) h = record {
      db = h.db;
      ready = unsubscribe-IsReady i w.events h.ready;
    }

    -- Over any store, what each of its methods keeps holds in every world that can follow one in which
    -- it holds, and so do the distinct subscriptions and the bounds of the event bus's channels.
    pub Run-IsSound : {w v : World S (Net F) F} → Run w v → IsSound P w → IsSound P v
    Run-IsSound start h = h
    Run-IsSound (next r s) h = Step-IsSound s (Run-IsSound r h)

-- The parts that `main` makes.
module _ {F : Type 0} ⦃fl : Float64 F⦄ (engine : Engine F) where
  abbrev pub app : Json → Service Db (Net F) F
  app json = new_service (new_store engine) (some (matter_controller json))

  abbrev pub auth_service : String → AuthService Db F
  auth_service pairing_code = new_auth (new_store engine) pairing_code

  -- A database with the tables of its file, which are empty if it is new, a client that has sent
  -- nothing, and no subscriber.
  abbrev pub started : Tables → List Dial → World Db (Net F) F
  started t dials = record {
    db = record { tables = t; statements = 0 };
    fabric = new_client dials;
    events = new_event_bus;
  }

  -- After a start on a database in which the primary keys, the Matter nodes of devices and the token
  -- hashes of clients are unique, whatever happens and in whatever order: they are still unique, the
  -- event bus has distinct subscriptions and no channel holds more than fits.
  pub Run-IsKeyed :
      (json : Json) (pairing_code : String) (t : Tables) (dials : List Dial)
      (v : World Db (Net F) F)
      → IsKeyed t
      → Run (app json) (auth_service pairing_code) (started t dials) v
      → IsKeyed v.db.tables × IsReady v.events
  Run-IsKeyed json pairing_code t dials v keyed run =
      let kept = new_store-Preserves engine IsKeyed λ n fk t t' ran done. Statement-IsKeyed done in
      let sound =
        Run-IsSound (app json) (auth_service pairing_code) (λ db. IsKeyed db.tables) kept kept run
          (record { db = keyed; ready = new-IsReady }) in
      (sound.db, sound.ready)

  -- Where every statement runs on a connection with foreign keys, and after a start on a database in
  -- which it is so, whatever happens and in whatever order: rooms and devices are of a home that there
  -- is, a device is in no room or in one that there is, and states are of a device that there is.
  pub Run-IsLinked :
      (json : Json) (pairing_code : String) (t : Tables) (dials : List Dial)
      (v : World Db (Net F) F)
      → IsLinked t
      → ((n : ℕ) (fk : Bool) → engine.outcome n ≡ ran fk → fk ≡ true)
      → Run (app json) (auth_service pairing_code) (started t dials) v
      → IsLinked v.db.tables
  Run-IsLinked json pairing_code t dials v all_linked checked run =
      let kept =
        new_store-Preserves engine IsLinked
          λ n fk t t' runs done. linked fk t t' (checked n fk runs) done in
      (Run-IsSound (app json) (auth_service pairing_code) (λ db. IsLinked db.tables) kept kept run
        (record { db = all_linked; ready = new-IsReady })).db
    where
      linked :
          (fk : Bool) (t t' : Tables) → fk ≡ true → Statement fk t t' → IsLinked t → IsLinked t'
      linked true t t' e done h = Statement-IsLinked done h
      linked false t t' e done h = cc
