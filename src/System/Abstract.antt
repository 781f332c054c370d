-- ===== src/System/Abstract.antt =====
-- The program over SQLite against the same program over a Hub: what comes in, and what goes out.
pub mod Refined
use manisa_app.Prelude.{ℕ, String, ◌≡◌, refl, ap, ◌∙◌, true, Option, some, List, [], ◌∷◌, All}
use manisa_app.Float.{Float64}
use manisa_app.Domain.{Time, Device, RealtimeEvent}
use manisa_app.Domain.Error.{Exec}
use manisa_app.Matter.{AttributeEvent}
use manisa_app.Capability.State.{StateMapping, from_matter_attribute}
use manisa_app.Application.EventBus.{EventBus, new_event_bus, unsubscribe, receive}
use manisa_app.Application.World.{Service, World, new_service}
use manisa_app.Application.Attributes.{state_of, apply_matter_attribute}
use manisa_app.Application.Simulates.{Simulates}
use manisa_app.Application.Simulates.Stores.{Alike, AreAlike}
use manisa_app.Application.Simulates.Methods.{apply_matter_attribute-Simulates}
use manisa_app.Storage.Engine.{Engine, Db, ran}
use manisa_app.Storage.Spec.{Hub, spec}
use manisa_app.Storage.Spec.Rows.{IsKept, IsReadable, db_of}
use manisa_app.Storage.Spec.Alike.{Represents, IsSettled, new_store-Alike}
use manisa_app.Storage.States.{new_store}
use manisa_app.Auth.{AuthService, new_auth}
use manisa_app.Matterjs.Wire.{Dial, Net, new_client}
use manisa_app.Matterjs.Client.{Json}
use manisa_app.Matterjs.Controller.{matter_controller}
use manisa_app.Matterjs.Listener.{EventJson}
use manisa_app.Matterjs.Stream.{listen_stream}
use manisa_app.Matterjs.Stream.Alike.{listen_stream-Simulates, run_matter_events-Simulates}
use manisa_app.Process.Backoff.{Round, run_matter_events}
use manisa_app.HttpApi.Requests.{Request}
use manisa_app.HttpApi.Handlers.{Env, Response, serve}
use manisa_app.HttpApi.Alike.{with_ping, serve-Simulates}
use manisa_app.System.{app, auth_service}

-- A request, some rounds of the loop that listens to Matter, with what the clock says in them, a change
-- of the network, a subscriber that takes a value off its channel, and one that leaves.
pub data Input (F : Type 0) : Type 0 where
  requested : Env Db F → Request → Input F
  listened : EventJson F → (Net F → EventBus F → Time) → ℕ → List Round → Input F
  moved : Net F → Input F
  received left : ℕ → Input F

-- The response, the pauses of the loop, and the value for the subscriber.
pub data Output (F : Type 0) : Type 0 where
  answered : Response F → Output F
  paused : List ℕ → Output F
  taken : Option (RealtimeEvent F) → Output F
  nothing : Output F

module _ {S F : Type 0} ⦃fl : Float64 F⦄ (svc : Service S (Net F) F) (auth : AuthService S F)
    (surround : Env Db F → Env S F) where
  abbrev pub handler_at :
      (Net F → EventBus F → Time) → AttributeEvent F → Exec (World S (Net F) F) Unit
  handler_at clock event w = apply_matter_attribute svc (clock w.fabric w.events) event w

  unfoldable pub take_in : Input F → World S (Net F) F → Output F × World S (Net F) F
  take_in (requested env req) w =
      let (response, w') = serve svc auth (surround env) req w in (answered response, w')
  take_in (listened json clock backoff rounds) w =
      let (pauses, w') =
        run_matter_events (listen_stream json (some (handler_at clock))) backoff rounds w in
      (paused pauses, w')
  take_in (moved fabric) w = (nothing, record w { fabric = fabric })
  take_in (received i) w =
      let (value, events) = receive i w.events in (taken value, record w { events = events })
  take_in (left i) w = (nothing, record w { events = unsubscribe i w.events })

  unfoldable pub take_all : List (Input F) → World S (Net F) F → List (Output F) × World S (Net F) F
  take_all [] w = ([], w)
  take_all (input ∷ inputs) w =
      let (output, w') = take_in input w in
      let (outputs, w'') = take_all inputs w' in (output ∷ outputs, w'')

abbrev pub begun : {S F : Type 0} → S → List Dial → World S (Net F) F
begun db dials = record { db = db; fabric = new_client dials; events = new_event_bus }

module _ {F : Type 0} ⦃fl : Float64 F⦄ (engine : Engine F) (json : Json) (code : String) where
  abbrev pub hub_app : Service (Hub F) (Net F) F
  hub_app = new_service (spec engine) (some (matter_controller json))

  abbrev pub hub_auth : AuthService (Hub F) F
  hub_auth = new_auth (spec engine) code

  abbrev pub hub_env : Env Db F → Env (Hub F) F
  hub_env env = with_ping env λ hub. env.ping (db_of engine hub)

  abbrev pub on_sqlite : List (Input F) → Hub F → List Dial → List (Output F) × World Db (Net F) F
  on_sqlite inputs hub dials =
      take_all (app engine json) (auth_service engine code) (λ env. env) inputs
        (begun (db_of engine hub) dials)

  abbrev pub on_hub : List (Input F) → Hub F → List Dial → List (Output F) × World (Hub F) (Net F) F
  on_hub inputs hub dials = take_all hub_app hub_auth hub_env inputs (begun hub dials)

  -- The times that the clock says are read back as they were, and so are the states that reports become,
  -- up to the type of the value, or their values have no JSON text.
  abbrev pub IsFine : Input F → Type 0
  IsFine (requested env req) = IsKept engine env.now
  IsFine (listened events clock backoff rounds) =
      (net : Net F) (bus : EventBus F) (event : AttributeEvent F) (device : Device)
      (mapping : StateMapping F)
      → from_matter_attribute device.product_type event.path event.value ≡ some mapping
      → IsSettled engine (state_of (clock net bus) device mapping)
  IsFine _ = Unit
