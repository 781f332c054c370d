-- ===== src/System/Abstract/Refined.antt =====
-- The program over SQLite puts out what it would over a hub.
use manisa_app.Prelude.{ℕ, String, ◌≡◌, refl, ap, ◌∙◌, true, some, List, [], ◌∷◌, All}
use manisa_app.Float.{Float64}
use manisa_app.Domain.{Time, Device}
use manisa_app.Matter.{AttributeEvent}
use manisa_app.Capability.State.{StateMapping, from_matter_attribute}
use manisa_app.Application.EventBus.{EventBus}
use manisa_app.Application.World.{World}
use manisa_app.Application.Attributes.{state_of}
use manisa_app.Application.Simulates.{Simulates}
use manisa_app.Application.Simulates.Stores.{Alike, AreAlike}
use manisa_app.Application.Simulates.Methods.{apply_matter_attribute-Simulates}
use manisa_app.Storage.Engine.{Engine, Db, ran}
use manisa_app.Storage.Spec.{Hub, spec}
use manisa_app.Storage.Spec.Rows.{IsKept, IsReadable, db_of}
use manisa_app.Storage.Spec.Alike.{Represents, IsSettled, new_store-Alike}
use manisa_app.Storage.States.{new_store}
use manisa_app.Matterjs.Wire.{Dial, Net}
use manisa_app.Matterjs.Client.{Json}
use manisa_app.Matterjs.Controller.{matter_controller}
use manisa_app.Matterjs.Stream.Alike.{listen_stream-Simulates, run_matter_events-Simulates}
use manisa_app.HttpApi.Alike.{serve-Simulates}
use manisa_app.System.{app, auth_service}
use manisa_app.System.Abstract.{
  Input, requested, listened, moved, received, left, answered, paused, handler_at, take_in,
  take_all, begun, hub_app, hub_auth, hub_env, on_sqlite, on_hub, IsFine,
}

module _ {F : Type 0} ⦃fl : Float64 F⦄ (engine : Engine F) (json : Json) (code : String)
    (runs : (n : ℕ) → engine.outcome n ≡ ran true)
    (clock_kept : (n : ℕ) → IsKept engine (engine.clock n)) where
  abbrev Follows :
      {A : Type 0}
      → (World Db (Net F) F → A × World Db (Net F) F)
      → (World (Hub F) (Net F) F → A × World (Hub F) (Net F) F)
      → Type 0
  Follows m n = Simulates (AreAlike (Represents engine)) m n

  abbrev alike :
      Alike (new_store engine) (spec engine) (Represents engine) (IsKept engine) (IsSettled engine)
  alike = new_store-Alike engine runs clock_kept

  handler_at-Simulates :
      (clock : Net F → EventBus F → Time) (event : AttributeEvent F)
      → ((net : Net F) (bus : EventBus F) (device : Device) (mapping : StateMapping F)
          → from_matter_attribute device.product_type event.path event.value ≡ some mapping
          → IsSettled engine (state_of (clock net bus) device mapping))
      → Follows (handler_at (app engine json) (auth_service engine code) (λ env. env) clock event) (
          handler_at
            (hub_app engine json code)
            (hub_auth engine json code)
            (hub_env engine json code)
            clock
            event)
  handler_at-Simulates clock event fits = record {
    at = λ w v h.
        let now : clock w.fabric w.events ≡ clock v.fabric v.events =
          ap (λ net. clock net w.events) h.fabric ∙ ap (clock v.fabric) h.events in
        rw now (
          (apply_matter_attribute-Simulates (new_store engine) (spec engine)
              (some (matter_controller json)) (Represents engine) (IsKept engine) (IsSettled engine)
              alike (clock v.fabric v.events) event (fits v.fabric v.events)).at
            w v h);
  }

  take_in-Simulates :
      (input : Input F)
      → IsFine engine json code input
      → Follows (take_in (app engine json) (auth_service engine code) (λ env. env) input) (
          take_in
            (hub_app engine json code)
            (hub_auth engine json code)
            (hub_env engine json code)
            input)
  unfolding take_in
  take_in-Simulates (requested env req) t = record {
    at = λ w v h.
        let (same, related) =
          (serve-Simulates (new_store engine) (spec engine) (some (matter_controller json)) code env
              (λ hub. env.ping (db_of engine hub)) (Represents engine) (IsKept engine)
              (IsSettled engine) alike t (λ db hub r. ap env.ping r.0) req).at
            w v h in
        (ap answered same, related);
  }
  take_in-Simulates (listened events clock backoff rounds) fits = record {
    at = λ w v h.
        let handlers = λ (event : AttributeEvent F).
          handler_at-Simulates clock event λ net bus. fits net bus event in
        let (same, related) =
          (run_matter_events-Simulates (AreAlike (Represents engine)) _ _ backoff rounds
              (listen_stream-Simulates events (Represents engine) _ _ handlers)).at
            w v h in
        (ap paused same, related);
  }
  take_in-Simulates (moved fabric) t = record {
    at = λ w v h. (refl, record { db = h.db; fabric = refl; events = h.events });
  }
  take_in-Simulates (received i) t = record {
    at = λ w v h. rw h.events (refl, record { db = h.db; fabric = h.fabric; events = refl });
  }
  take_in-Simulates (left i) t = record {
    at = λ w v h. rw h.events (refl, record { db = h.db; fabric = h.fabric; events = refl });
  }

  take_all-Simulates :
      (inputs : List (Input F))
      → All (IsFine engine json code) inputs
      → Follows (take_all (app engine json) (auth_service engine code) (λ env. env) inputs) (
          take_all
            (hub_app engine json code)
            (hub_auth engine json code)
            (hub_env engine json code)
            inputs)
  unfolding take_all
  take_all-Simulates [] fine = record { at = λ w v h. (refl, h) }
  take_all-Simulates (input ∷ inputs) (fine, rest) = record {
    at = λ w v h.
        let (first, related) = (take_in-Simulates input fine).at w v h in
        let (later, ended) =
          (take_all-Simulates inputs rest).at
            (take_in (app engine json) (auth_service engine code) (λ env. env) input w).1
            (take_in (hub_app engine json code) (hub_auth engine json code)
              (hub_env engine json code) input v).1
            related in
        (rw (first, later) refl, ended);
  }

  -- Where every statement runs, with foreign keys, and what the store writes is read back as it was (the
  -- times of the database's clock and of the inputs, what the hub of the start holds, and the states
  -- that reports become, each value up to its type, unless it has no JSON text): the program over
  -- SQLite gives the same output to every input as the same program over the abstract hub that the
  -- tables stand for at the start, and its tables stand for that hub at the end too.
  pub on_sqlite_refines :
      (inputs : List (Input F)) (hub : Hub F) (dials : List Dial)
      → IsReadable engine hub
      → All (IsFine engine json code) inputs
      → ((on_sqlite engine json code inputs hub dials).0
          ≡ (on_hub engine json code inputs hub dials).0)
        × ((on_sqlite engine json code inputs hub dials).1.db
            ≡ db_of engine (on_hub engine json code inputs hub dials).1.db)
  on_sqlite_refines inputs hub dials readable fine =
      let (same, ended) =
        (take_all-Simulates inputs fine).at (begun (db_of engine hub) dials) (begun hub dials)
          (record { db = (refl, readable); fabric = refl; events = refl }) in
      (same, ended.db.0)
