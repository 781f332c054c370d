-- ===== src/System/Interleaved.antt =====
-- The parts of cmd/manisa-core/main.go, when between any two statements of a request, or of the loop
-- that listens, other goroutines have statements run too.
pub mod Paired
use manisa_app.Prelude.{ℕ, ◌≡◌, String, Bool, true, false, List, some, All}
use manisa_app.Float.{Float64}
use manisa_app.Application.EventBus.{EventBus, new_event_bus}
use manisa_app.Application.EventBus.Delivery.{IsReady}
use manisa_app.Application.EventBus.Ready.{new-IsReady}
use manisa_app.Application.Shared.{Shared, share}
use manisa_app.Application.World.{Service, World, new_service}
use manisa_app.Application.Keeps.Stores.{IsSound}
use manisa_app.Storage.Tables.{Tables}
use manisa_app.Storage.Engine.{Engine, Db, ran}
use manisa_app.Storage.States.{new_store}
use manisa_app.Storage.Statements.{Statement}
use manisa_app.Storage.Effects.{
  Effects, start, next, Effects-trans, ByStatements, others-keep, shared_store-Preserves, Shares,
}
use manisa_app.Storage.Integrity.{IsKeyed, Statement-IsKeyed}
use manisa_app.Storage.References.{IsLinked, Statement-IsLinked}
use manisa_app.Auth.{AuthService, new_auth}
use manisa_app.Matterjs.Wire.{Dial, Net, new_client}
use manisa_app.Matterjs.Client.{Json}
use manisa_app.Matterjs.Controller.{matter_controller}
use manisa_app.HttpApi.Requests.{Request}
use manisa_app.HttpApi.Handlers.{Env, serve}
use manisa_app.System
use manisa_app.System.{Run, Run-IsSound}

module _ {F : Type 0} ⦃fl : Float64 F⦄ (engine : Engine F) where
  abbrev pub shared_app : Json → Service (Shared Db) (Net F) F
  shared_app json = new_service (share (new_store engine)) (some (matter_controller json))

  abbrev pub shared_auth : String → AuthService (Shared Db) F
  shared_auth pairing_code = new_auth (share (new_store engine)) pairing_code

  -- The start, with what the others will do before each of the calls to the store.
  abbrev pub shared_start : Tables → List Dial → List (Db → Db) → World (Shared Db) (Net F) F
  shared_start t dials others = record {
    db = record { state = record { tables = t; statements = 0 }; others = others };
    fabric = new_client dials;
    events = new_event_bus;
  }

  module _ (json : Json) (pairing_code : String) where
    abbrev pub After : World (Shared Db) (Net F) F → World (Shared Db) (Net F) F → Type 0
    After w v = Run (shared_app json) (shared_auth pairing_code) w v

    -- What every statement keeps, a run keeps, the statements of the others included.
    module _ (P : Tables → Type 0)
        (keeps : (n : ℕ) (fk : Bool) (t t' : Tables)
          → engine.outcome n ≡ ran fk
          → Statement fk t t'
          → P t
          → P t') where
      pub Run-IsShared :
          {w v : World (Shared Db) (Net F) F}
          → After w v
          → All (ByStatements engine) w.db.others
          → IsReady w.events
          → P w.db.state.tables
          → IsSound (Shares engine P keeps) v
      Run-IsShared {w} {v} run by ready h =
          let kept = shared_store-Preserves engine P keeps in
          Run-IsSound (shared_app json) (shared_auth pairing_code) (Shares engine P keeps) kept kept
            run
            (record {
              db = record { state = h; others = others-keep engine P keeps w.db.others by };
              ready = ready;
            })

      pub Run-keeps :
          {w v : World (Shared Db) (Net F) F}
          → After w v
          → All (ByStatements engine) w.db.others
          → IsReady w.events
          → P w.db.state.tables
          → P v.db.state.tables × IsReady v.events
      Run-keeps run by ready h =
          let sound = Run-IsShared run by ready h in (sound.db.state, sound.ready)

    -- Where others have statements run between any two of a run's own: after a start on a database in
    -- which the primary keys, the Matter nodes of devices and the token hashes of clients are unique,
    -- and whatever happens in whatever order, they are still unique, the event bus has distinct
    -- subscriptions and no channel holds more than fits.
    pub Run-IsKeyed_shared :
        (t : Tables) (dials : List Dial) (others : List (Db → Db)) (v : World (Shared Db) (Net F) F)
        → IsKeyed t
        → All (ByStatements engine) others
        → After (shared_start t dials others) v
        → IsKeyed v.db.state.tables × IsReady v.events
    Run-IsKeyed_shared t dials others v keyed by run =
        Run-keeps IsKeyed (λ n fk t t' runs done. Statement-IsKeyed done) run by new-IsReady keyed

    -- Where others have statements run between any two of a run's own, and every statement runs on a
    -- connection with foreign keys: after a start on a database in which it is so, and whatever
    -- happens in whatever order, rooms and devices are of a home that there is, a device is in no
    -- room or in one that there is, and states are of a device that there is.
    pub Run-IsLinked_shared :
        (t : Tables) (dials : List Dial) (others : List (Db → Db)) (v : World (Shared Db) (Net F) F)
        → IsLinked t
        → ((n : ℕ) (fk : Bool) → engine.outcome n ≡ ran fk → fk ≡ true)
        → All (ByStatements engine) others
        → After (shared_start t dials others) v
        → IsLinked v.db.state.tables
    Run-IsLinked_shared t dials others v linked checked by run =
        (Run-keeps IsLinked (λ n fk t t' runs done. keeps fk t t' (checked n fk runs) done) run by
          new-IsReady linked).0
      where
        keeps :
            (fk : Bool) (t t' : Tables) → fk ≡ true → Statement fk t t' → IsLinked t → IsLinked t'
        keeps true t t' e done h = Statement-IsLinked done h
        keeps false t t' e done h = cc

    -- Whatever happens to the tables in a run, with others in between, is a sequence of the store's
    -- statements.
    pub Run-Effects :
        (w v : World (Shared Db) (Net F) F)
        → After w v
        → All (ByStatements engine) w.db.others
        → IsReady w.events
        → Effects engine w.db.state.tables v.db.state.tables
    Run-Effects w v run by ready =
        (Run-keeps (Effects engine w.db.state.tables)
          (λ n fk t t' runs done before. next n fk before runs done) run by ready start).0
