-- ===== src/HttpApi/Alike.antt =====
-- Requests are answered alike over stores that answer alike.
use manisa_app.Prelude.{
  ℕ, String, Bool, ◌≡◌, refl, Option, none, some, inl, inr, Bool-cases, Option-cases,
}
use manisa_app.Float.{Float64}
use manisa_app.Domain.{Time, DeviceState}
use manisa_app.Domain.Error.{Exec, Result, ok, err, Error}
use manisa_app.Domain.Store.{Store}
use manisa_app.Matter.{Controller}
use manisa_app.Text.Split.{split}
use manisa_app.Application.World.{Service, World, new_service, on_store}
use manisa_app.Application.Devices.{list_device_types}
use manisa_app.Application.Simulates.{Simulates}
use manisa_app.Application.Simulates.Stores.{Alike, AreAlike, Simulates-on_store}
use manisa_app.Application.Simulates.Methods.{
  create_home-Simulates, list_homes-Simulates, create_room-Simulates, list_rooms-Simulates,
  create_device-Simulates, list_devices-Simulates, device_states-Simulates,
  device_descriptor-Simulates, commission_device-Simulates, execute_device_command-Simulates,
}
use manisa_app.Auth.{AuthService, new_auth, pair, authenticate}
use manisa_app.Auth.Alike.{pair-Simulates, authenticate-Simulates}
use manisa_app.HttpApi.Route.{
  Route, live, ready, pairing, system, events, device_types, homes_list, homes_create, rooms_list,
  rooms_create, devices_list, devices_create, commission, nowhere, descriptor_of, state_of_device,
  commands_of, route,
}
use manisa_app.HttpApi.Requests.{PairRequest, Request, commission_input, command_input}
use manisa_app.HttpApi.Handlers.{
  Env, Response, Answer, respond, decoded, serve_pair, handle_open, handle, serve_mux, serve,
  bearer, is_public, write_error, failure, paired,
}

-- the same surroundings, for another state of the store
abbrev pub with_ping : {S T F : Type 0} → Env S F → (T → Bool) → Env T F
with_ping env ping = record {
  codec = env.codec;
  sum = env.sum;
  ping = ping;
  accept = env.accept;
  unmatched = env.unmatched;
  now = env.now;
  random = env.random;
  raw = env.raw;
}

module _ {S T C F : Type 0} ⦃fl : Float64 F⦄ (store : Store S F) (other : Store T F)
    (matter : Option (Controller C F)) (code : String) (env : Env S F) (ping : T → Bool)
    (R : S → T → Type 0) (IsTime : Time → Type 0) (IsState : DeviceState F → Type 0)
    (alike : Alike store other R IsTime IsState) (t : IsTime env.now)
    (pings : (s : S) (s' : T) → R s s' → env.ping s ≡ ping s') where
  abbrev svc : Service S C F
  svc = new_service store matter

  abbrev svc' : Service T C F
  svc' = new_service other matter

  abbrev env' : Env T F
  env' = with_ping env ping

  abbrev auth : AuthService S F
  auth = new_auth store code

  abbrev auth' : AuthService T F
  auth' = new_auth other code

  abbrev Follows :
      {A : Type 0} → (World S C F → A × World S C F) → (World T C F → A × World T C F) → Type 0
  Follows m n = Simulates (AreAlike R) m n

  at_result :
      {A B : Type 0} (f : Result A → World S C F → B × World S C F)
      (g : Result A → World T C F → B × World T C F)
      → ((a : A) → Follows (f (ok a)) (g (ok a)))
      → ((e : Error) → Follows (f (err e)) (g (err e)))
      → (r : Result A) → Follows (f r) (g r)
  at_result f g good bad (ok a) = good a
  at_result f g good bad (err e) = bad e

  then-Simulates :
      {A B : Type 0} (m : Exec (World S C F) A) (n : Exec (World T C F) A)
      (f : Result A → World S C F → B × World S C F) (g : Result A → World T C F → B × World T C F)
      → Follows m n
      → ((a : A) → Follows (f (ok a)) (g (ok a)))
      → ((e : Error) → Follows (f (err e)) (g (err e)))
      → Follows {A = B} (λ w. f (m w).0 (m w).1) (λ v. g (n v).0 (n v).1)
  then-Simulates m n f g k good bad = record {
    at = λ w v h.
        let (same, related) = k.at w v h in
        rw same ((at_result f g good bad (n v).0).at (m w).1 (n v).1 related);
  }

  respond-Simulates :
      {A : Type 0} (status : ℕ) (answer : A → Answer F) (m : Exec (World S C F) A)
      (n : Exec (World T C F) A)
      → Follows m n
      → Follows (respond svc env status answer m) (respond svc' env' status answer n)
  respond-Simulates status answer m n k =
      then-Simulates m n
        (λ r w. elim r [ ok a ↦ ((status, answer a), w) | err e ↦ (write_error e, w) ])
        (λ r w. elim r [ ok a ↦ ((status, answer a), w) | err e ↦ (write_error e, w) ]) k
        (λ a. record { at = λ w v h. (refl, h) }) (λ e. record { at = λ w v h. (refl, h) })

  decoded-Simulates :
      {A : Type 0} (o : Option A) (f : A → World S C F → Response F × World S C F)
      (g : A → World T C F → Response F × World T C F)
      → ((a : A) → Follows (f a) (g a))
      → Follows (decoded svc env o f) (decoded svc' env' o g)
  decoded-Simulates none f g k = record { at = λ w v h. (refl, h) }
  decoded-Simulates (some a) f g k = record { at = (k a).at }

  events-Simulates :
      (req : Request) → Follows (handle_open svc env events req) (handle_open svc' env' events req)
  unfolding handle_open
  events-Simulates req = record {
    at = λ w v h. elim (Option-cases (env.accept req)) [
      | inl accepted ↦
          rw (handle_open, accepted, h.events)
            (refl, record { db = h.db; fabric = h.fabric; events = refl })
      | inr (refused, e) ↦ rw (handle_open, e) (refl, h)
    ];
  }

  handle_open-Simulates :
      (r : Route) (req : Request)
      → Follows (handle_open svc env r req) (handle_open svc' env' r req)
  unfolding handle_open list_device_types
  handle_open-Simulates live req = record { at = λ w v h. (refl, h) }
  handle_open-Simulates ready req = record { at = λ w v h. rw (pings w.db v.db h.db) (refl, h) }
  handle_open-Simulates pairing req = record { at = λ w v h. (refl, h) }
  handle_open-Simulates system req = record { at = λ w v h. (refl, h) }
  handle_open-Simulates events req = events-Simulates req
  handle_open-Simulates device_types req = record { at = λ w v h. (refl, h) }
  handle_open-Simulates (descriptor_of id) req =
      respond-Simulates _ _ _ _
        (device_descriptor-Simulates store other matter R IsTime IsState alike id)
  handle_open-Simulates (state_of_device id) req =
      respond-Simulates _ _ _ _
        (device_states-Simulates store other matter R IsTime IsState alike id)
  handle_open-Simulates homes_list req =
      respond-Simulates _ _ _ _ (list_homes-Simulates store other matter R IsTime IsState alike)
  handle_open-Simulates homes_create req = decoded-Simulates _ _ _ λ r.
      respond-Simulates _ _ _ _
        (create_home-Simulates store other matter R IsTime IsState alike _ _ r.name t)
  handle_open-Simulates rooms_list req =
      respond-Simulates _ _ _ _
        (list_rooms-Simulates store other matter R IsTime IsState alike req.home_id)
  handle_open-Simulates rooms_create req = decoded-Simulates _ _ _ λ r.
      respond-Simulates _ _ _ _
        (create_room-Simulates store other matter R IsTime IsState alike _ _ r.home_id r.name t)
  handle_open-Simulates devices_list req =
      respond-Simulates _ _ _ _
        (list_devices-Simulates store other matter R IsTime IsState alike req.home_id)
  handle_open-Simulates devices_create req = decoded-Simulates _ _ _ λ r.
      respond-Simulates _ _ _ _ (
        create_device-Simulates store other matter R IsTime IsState alike _ _ r.home_id r.name
          r.product_type r.transport r.room_id t)
  handle_open-Simulates commission req = decoded-Simulates _ _ _ λ r. respond-Simulates _ _ _ _ (
      commission_device-Simulates store other matter R IsTime IsState alike _ _ (commission_input r)
        t)
  handle_open-Simulates (commands_of id) req = decoded-Simulates _ _ _ λ r.
      respond-Simulates _ _ _ _ (
        execute_device_command-Simulates store other matter R IsTime IsState alike id
          (command_input r))
  handle_open-Simulates nowhere req = record { at = λ w v h. (refl, h) }

  serve_pair-Simulates :
      (req : PairRequest) → Follows (serve_pair svc auth env req) (serve_pair svc' auth' env' req)
  unfolding serve_pair
  serve_pair-Simulates req =
      then-Simulates
        (on_store (pair env.sum auth env.now env.raw env.random req.code req.client_name))
        (on_store (pair env.sum auth' env.now env.raw env.random req.code req.client_name))
        (λ r w. elim r [
          | ok issued ↦ ((201, paired issued.0 issued.1), w)
          | err e ↦ ((401, failure "pairing_rejected"), w)
        ])
        (λ r w. elim r [
          | ok issued ↦ ((201, paired issued.0 issued.1), w)
          | err e ↦ ((401, failure "pairing_rejected"), w)
        ])
        (Simulates-on_store _ _ (
          pair-Simulates env.sum store other code R IsTime IsState alike env.now env.raw env.random
            req.code req.client_name t))
        (λ a. record { at = λ w v h. (refl, h) }) (λ e. record { at = λ w v h. (refl, h) })

  handle-Simulates :
      (r : Route) (req : Request)
      → Follows (handle svc auth env r req) (handle svc' auth' env' r req)
  unfolding handle
  handle-Simulates pairing req = decoded-Simulates _ _ _ serve_pair-Simulates
  handle-Simulates r req = record { at = (handle_open-Simulates r req).at }

  serve_mux-Simulates :
      (req : Request) → Follows (serve_mux svc auth env req) (serve_mux svc' auth' env' req)
  unfolding serve_mux
  serve_mux-Simulates req = record {
    at = (handle-Simulates (route req.method (split b'/' req.path)) req).at;
  }

  -- Over stores that answer alike a request gets the same answer, and related states are left.
  pub serve-Simulates :
      (req : Request) → Follows (serve svc auth env req) (serve svc' auth' env' req)
  unfolding serve
  serve-Simulates req = record {
    at = λ w v h. elim (Bool-cases (is_public req.path)) [
      | inl open_path ↦ rw (serve, open_path) ((serve_mux-Simulates req).at w v h)
      | inr closed ↦ elim (Option-cases (bearer req.authorization)) [
        | inl missing ↦ rw (serve, closed, missing) (refl, h)
        | inr (token, sent) ↦
            rw (serve, closed, sent)
              ((then-Simulates {B = Response F} (on_store (authenticate env.sum auth token))
                  (on_store (authenticate env.sum auth' token))
                  (λ r v. elim r [
                    | err e ↦ ((401, failure "unauthorized"), v)
                    | ok client ↦ serve_mux svc auth env req v
                  ])
                  (λ r v. elim r [
                    | err e ↦ ((401, failure "unauthorized"), v)
                    | ok client ↦ serve_mux svc' auth' env' req v
                  ])
                  (Simulates-on_store _ _
                    (authenticate-Simulates env.sum store other code R IsTime IsState alike token))
                  (λ client. record { at = (serve_mux-Simulates req).at })
                  (λ e. record { at = λ w v h. (refl, h) })).at
                w v h)
      ]
    ];
  }
