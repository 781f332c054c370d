-- ===== src/HttpApi/Handlers.antt =====
-- internal/httpapi/router.go: the handlers and the authentication in front of them. The handler of the
-- events subscribes; its loop, which writes them to the socket, is in HttpApi/Events.antt.
use manisa_app.Prelude.{
  ℕ, pos, String, Bool, true, ◌||◌, Option, none, some, List, [], ◌∷◌, ◌==◌, if◌then◌else◌,
}
use manisa_app.Float.{Float64}
use manisa_app.Domain.{Time, Home, Room, Device, DeviceState, LocalClient, DeviceDescriptor}
use manisa_app.Domain.Error.{
  Exec, ok, err, Error, is, invalid_input, unsupported_capability, device_not_commissioned,
  not_found,
}
use manisa_app.Text.Trim.{trim_space}
use manisa_app.Text.Split.{split, has_prefix, trim_prefix}
use manisa_app.Application.World.{Service, World, on_store, subscribe_events}
use manisa_app.Application.Homes.{create_home, list_homes, create_room, list_rooms}
use manisa_app.Application.Devices.{
  create_device, list_devices, device_states, list_device_types, device_descriptor,
  commission_device, execute_device_command,
}
use manisa_app.HttpApi.Route.{
  Route, live, ready, pairing, system, events, device_types, homes_list, homes_create, rooms_list,
  rooms_create, devices_list, devices_create, commission, nowhere, descriptor_of, state_of_device,
  commands_of, route,
}
use manisa_app.Auth.{AuthService, pair, authenticate}
use manisa_app.HttpApi.Requests.{
  PairRequest, commission_input, command_input, decode_json, Codec, Request,
}

-- What is written: an error's name, a value, or nothing.
pub data Answer (F : Type 0) : Type 0 where
  failure status : String → Answer F
  alive : (status service : String) → Answer F
  system_info : (name api_version : String) → (local_first : Bool) → (time : Time) → Answer F
  no_content : Answer F
  paired : LocalClient → String → Answer F
  -- the subscription's id
  stream : ℕ → Answer F
  a_home : Home → Answer F
  a_room : Room → Answer F
  a_device : Device → Answer F
  a_descriptor : DeviceDescriptor → Answer F
  some_homes : List Home → Answer F
  some_rooms : List Room → Answer F
  some_devices : List Device → Answer F
  some_states : List (DeviceState F) → Answer F
  some_types : List DeviceDescriptor → Answer F

abbrev pub Response : Type 0 → Type 0
Response F = ℕ × Answer F

-- writeError
unfoldable pub write_error : {F : Type 0} → Error → Response F
write_error e =
    if is e invalid_input
    then (400, failure "invalid_input")
    else if is e unsupported_capability
    then (400, failure "unsupported_capability")
    else if is e device_not_commissioned
    then (409, failure "device_not_commissioned")
    else if is e not_found
    then (404, failure "not_found")
    else (500, failure "internal_error")

-- What the handlers take from outside: encoding/json, SHA-256, db.PingContext, what websocket.Accept
-- answers where it refuses, ServeMux's own answer (404, 405 or a redirect), and for one request the
-- clock and the random source, for an id and for a token.
pub record Env (S F : Type 0) : Type 0 where
  pub codec : Codec F
  pub sum : String → List ℕ
  pub ping : S → Bool
  pub accept : Request → Option (Response F)
  pub unmatched : Request → Response F
  pub now : Time
  pub random : Option (List ℕ)
  pub raw : Option (List ℕ)

abbrev pub is_public : String → Bool
is_public path = has_prefix "/health/" path || path == "/api/v1/pair"

-- the token of the header, if it is a Bearer token
unfoldable pub bearer : String → Option String
bearer header =
    let trimmed = trim_space header in
    if has_prefix "Bearer " trimmed then some (trim_space (trim_prefix "Bearer " trimmed)) else none

module _ {S C F : Type 0} ⦃fl : Float64 F⦄ (svc : Service S C F) (env : Env S F) where
  -- `if err != nil { writeError(w, err); return }; writeJSON(w, status, …)`
  abbrev pub respond :
      {A : Type 0}
      → ℕ
      → (A → Answer F)
      → Exec (World S C F) A
      → World S C F
      → Response F × World S C F
  respond status_code answer m w =
      let (r, w') = m w in
      elim r [ ok a ↦ ((status_code, answer a), w') | err e ↦ (write_error e, w') ]

  -- `if err := decodeJSON(w, r, &req); err != nil`
  abbrev pub decoded :
      {A : Type 0}
      → Option A
      → (A → World S C F → Response F × World S C F)
      → World S C F
      → Response F × World S C F
  decoded none f w = ((400, failure "invalid_json"), w)
  decoded (some a) f w = f a w

  -- the handler of POST /api/v1/matter/commission
  abbrev pub serve_commission : Request → World S C F → Response F × World S C F
  serve_commission req =
      decoded (decode_json env.codec.commission_request req.body)
        (λ r. respond 201 a_device (commission_device svc env.now env.random (commission_input r)))

  -- the handler of POST /api/v1/devices/{deviceID}/commands
  abbrev pub serve_command : String → Request → World S C F → Response F × World S C F
  serve_command id req =
      decoded (decode_json env.codec.command_request req.body)
        (λ r. respond 204 (λ done. no_content) (execute_device_command svc id (command_input r)))

  -- The handlers, by route, without an auth.Service: POST /api/v1/pair is no pattern then.
  unfoldable pub handle_open : Route → Request → World S C F → Response F × World S C F
  handle_open live req w = ((200, alive "ok" "manisa-core"), w)
  handle_open ready req w =
      (if env.ping w.db then (200, status "ready") else (503, status "not_ready"), w)
  handle_open pairing req w = (env.unmatched req, w)
  handle_open system req w = ((200, system_info "Manisa Core" "v1" true env.now), w)
  handle_open events req w = elim (env.accept req) [
    | some refused ↦ (refused, w)
    | none ↦ let (id, w') = subscribe_events (pos 128) w in ((101, stream id), w')
  ]
  handle_open device_types req w = ((200, some_types (list_device_types svc)), w)
  handle_open (descriptor_of id) req w = respond 200 a_descriptor (device_descriptor svc id) w
  handle_open (state_of_device id) req w = respond 200 some_states (device_states svc id) w
  handle_open homes_list req w = respond 200 some_homes (list_homes svc) w
  handle_open homes_create req w =
      decoded (decode_json env.codec.create_home_request req.body)
        (λ r. respond 201 a_home (create_home svc env.now env.random r.name)) w
  handle_open rooms_list req w = respond 200 some_rooms (list_rooms svc req.home_id) w
  handle_open rooms_create req w =
      decoded (decode_json env.codec.create_room_request req.body)
        (λ r. respond 201 a_room (create_room svc env.now env.random r.home_id r.name)) w
  handle_open devices_list req w = respond 200 some_devices (list_devices svc req.home_id) w
  handle_open devices_create req w =
      decoded (decode_json env.codec.create_device_request req.body)
        (λ r. respond 201 a_device (
          create_device svc env.now env.random r.home_id r.name r.product_type r.transport
            r.room_id))
        w
  handle_open commission req w = serve_commission req w
  handle_open (commands_of id) req w = serve_command id req w
  handle_open nowhere req w = (env.unmatched req, w)

module _ {S C F : Type 0} ⦃fl : Float64 F⦄ (svc : Service S C F) (auth : AuthService S F)
    (env : Env S F) where
  -- the handler of POST /api/v1/pair: every error is 401
  unfoldable pub serve_pair : PairRequest → World S C F → Response F × World S C F
  serve_pair req w =
      let (r, w') =
        on_store (pair env.sum auth env.now env.raw env.random req.code req.client_name) w in
      elim r [
        | ok issued ↦ ((201, paired issued.0 issued.1), w')
        | err e ↦ ((401, failure "pairing_rejected"), w')
      ]

  -- the handlers with an auth.Service
  unfoldable pub handle : Route → Request → World S C F → Response F × World S C F
  unfolding handle_open
  handle pairing req w = decoded svc env (decode_json env.codec.pair_request req.body) serve_pair w
  handle r req w = handle_open svc env r req w

  -- the mux
  unfoldable pub serve_mux : Request → World S C F → Response F × World S C F
  serve_mux req w = handle (route req.method (split b'/' req.path)) req w

  -- requireLocalAuth, in front of the mux
  unfoldable pub serve : Request → World S C F → Response F × World S C F
  serve req w = if is_public req.path then serve_mux req w else elim (bearer req.authorization) [
    | none ↦ ((401, failure "unauthorized"), w)
    | some token ↦
        let (r, w') = on_store (authenticate env.sum auth token) w in
        elim r [ err e ↦ ((401, failure "unauthorized"), w') | ok client ↦ serve_mux req w' ]
  ]

module _ {S C F : Type 0} ⦃fl : Float64 F⦄ (svc : Service S C F) where
  -- What NewRouter makes: the first of the auth.Services that it is given guards the mux, and without
  -- one nothing does.
  unfoldable pub new_router :
      List (AuthService S F) → Env S F → Request → World S C F → Response F × World S C F
  new_router [] env req w = handle_open svc env (route req.method (split b'/' req.path)) req w
  new_router (auth ∷ more) env req w = serve svc auth env req w
