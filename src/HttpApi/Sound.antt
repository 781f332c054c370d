-- ===== src/HttpApi/Sound.antt =====
-- Serving a request keeps what the store's methods keep, and the event bus ready.
use manisa_app.Prelude.{
  ℕ, pos, Option, none, some, List, [], ◌∷◌, All, inl, inr, Bool-cases, Option-cases,
}
use manisa_app.Float.{Float64}
use manisa_app.Domain.Error.{Exec, Result, ok, err, Error}
use manisa_app.Text.Split.{split}
use manisa_app.Application.EventBus.Ready.{subscribe-IsReady}
use manisa_app.Application.World.{Service, World, on_store}
use manisa_app.Application.Keeps.{Keeps}
use manisa_app.Application.Keeps.Stores.{Preserves, IsSound, Keeps-on_store}
use manisa_app.Application.Keeps.Methods.{
  create_home-Keeps, list_homes-Keeps, create_room-Keeps, list_rooms-Keeps, create_device-Keeps,
  list_devices-Keeps, device_states-Keeps, device_descriptor-Keeps, commission_device-Keeps,
  execute_device_command-Keeps,
}
use manisa_app.Auth.{AuthService, pair, authenticate}
use manisa_app.Auth.Keeping.{pair-Keeps, authenticate-Keeps}
use manisa_app.HttpApi.Route.{
  Route, live, ready, pairing, system, events, device_types, homes_list, homes_create, rooms_list,
  rooms_create, devices_list, devices_create, commission, nowhere, descriptor_of, state_of_device,
  commands_of, route,
}
use manisa_app.HttpApi.Requests.{PairRequest, Request, commission_input, command_input}
use manisa_app.HttpApi.Handlers.{
  Env, Response, Answer, respond, decoded, serve_pair, handle_open, handle, serve_mux, new_router,
  serve, bearer, is_public, write_error, failure, paired,
}

module _ {S C F : Type 0} ⦃fl : Float64 F⦄ (svc : Service S C F) (env : Env S F) (P : S → Type 0)
    (kept : Preserves svc.store P) where
  abbrev IsKept : {A : Type 0} → (World S C F → A × World S C F) → Type 0
  IsKept m = Keeps (IsSound P) m

  at_result :
      {A B : Type 0} (f : Result A → World S C F → B × World S C F)
      → ((a : A) → IsKept (f (ok a)))
      → ((e : Error) → IsKept (f (err e)))
      → (r : Result A) → IsKept (f r)
  at_result f good bad (ok a) = good a
  at_result f good bad (err e) = bad e

  -- Something is made of a method's result, in the state that the method leaves.
  then-Keeps :
      {A B : Type 0} (m : Exec (World S C F) A) (f : Result A → World S C F → B × World S C F)
      → IsKept m
      → ((a : A) → IsKept (f (ok a)))
      → ((e : Error) → IsKept (f (err e)))
      → IsKept {A = B} (λ w. f (m w).0 (m w).1)
  then-Keeps m f k good bad = record {
    at = λ w h. (at_result f good bad (m w).0).at (m w).1 (k.at w h);
  }

  respond-Keeps :
      {A : Type 0} (code : ℕ) (answer : A → Answer F) (m : Exec (World S C F) A)
      → IsKept m
      → IsKept (respond svc env code answer m)
  respond-Keeps code answer m k =
      then-Keeps m (λ r w. elim r [ ok a ↦ ((code, answer a), w) | err e ↦ (write_error e, w) ]) k
        (λ a. record { at = λ w h. h }) (λ e. record { at = λ w h. h })

  decoded-Keeps :
      {A : Type 0} (o : Option A) (f : A → World S C F → Response F × World S C F)
      → ((a : A) → IsKept (f a))
      → IsKept (decoded svc env o f)
  decoded-Keeps none f k = record { at = λ w h. h }
  decoded-Keeps (some a) f k = record { at = (k a).at }

  events-Keeps : (req : Request) → IsKept (handle_open svc env events req)
  unfolding handle_open
  events-Keeps req = record {
    at = λ w h. elim (Option-cases (env.accept req)) [
      | inl accepted ↦
          rw (handle_open, accepted)
            (record { db = h.db; ready = subscribe-IsReady (pos 128) w.events h.ready })
      | inr (refused, e) ↦ rw (handle_open, e) h
    ];
  }

  pub handle_open-Keeps : (r : Route) (req : Request) → IsKept (handle_open svc env r req)
  unfolding handle_open
  handle_open-Keeps live req = record { at = λ w h. h }
  handle_open-Keeps ready req = record { at = λ w h. h }
  handle_open-Keeps pairing req = record { at = λ w h. h }
  handle_open-Keeps system req = record { at = λ w h. h }
  handle_open-Keeps events req = events-Keeps req
  handle_open-Keeps device_types req = record { at = λ w h. h }
  handle_open-Keeps (descriptor_of id) req =
      respond-Keeps _ _ _ (device_descriptor-Keeps svc P kept id)
  handle_open-Keeps (state_of_device id) req =
      respond-Keeps _ _ _ (device_states-Keeps svc P kept id)
  handle_open-Keeps homes_list req = respond-Keeps _ _ _ (list_homes-Keeps svc P kept)
  handle_open-Keeps homes_create req =
      decoded-Keeps _ _ λ r. respond-Keeps _ _ _ (create_home-Keeps svc P kept _ _ r.name)
  handle_open-Keeps rooms_list req = respond-Keeps _ _ _ (list_rooms-Keeps svc P kept req.home_id)
  handle_open-Keeps rooms_create req =
      decoded-Keeps _ _ λ r. respond-Keeps _ _ _ (create_room-Keeps svc P kept _ _ r.home_id r.name)
  handle_open-Keeps devices_list req =
      respond-Keeps _ _ _ (list_devices-Keeps svc P kept req.home_id)
  handle_open-Keeps devices_create req = decoded-Keeps _ _ λ r.
      respond-Keeps _ _ _
        (create_device-Keeps svc P kept _ _ r.home_id r.name r.product_type r.transport r.room_id)
  handle_open-Keeps commission req =
      decoded-Keeps _ _
        λ r. respond-Keeps _ _ _ (commission_device-Keeps svc P kept _ _ (commission_input r))
  handle_open-Keeps (commands_of id) req =
      decoded-Keeps _ _
        λ r. respond-Keeps _ _ _ (execute_device_command-Keeps svc P kept id (command_input r))
  handle_open-Keeps nowhere req = record { at = λ w h. h }

module _ {S C F : Type 0} ⦃fl : Float64 F⦄ (svc : Service S C F) (auth : AuthService S F)
    (env : Env S F) (P : S → Type 0) (kept : Preserves svc.store P)
    (auth_kept : Preserves auth.store P) where
  serve_pair-Keeps : (req : PairRequest) → Keeps (IsSound P) (serve_pair svc auth env req)
  unfolding serve_pair
  serve_pair-Keeps req =
      then-Keeps svc env P kept
        (on_store (pair env.sum auth env.now env.raw env.random req.code req.client_name))
        (λ r w. elim r [
          | ok issued ↦ ((201, paired issued.0 issued.1), w)
          | err e ↦ ((401, failure "pairing_rejected"), w)
        ])
        (Keeps-on_store _
          (pair-Keeps env.sum auth P auth_kept env.now env.raw env.random req.code req.client_name))
        (λ a. record { at = λ w h. h }) (λ e. record { at = λ w h. h })

  handle-Keeps : (r : Route) (req : Request) → Keeps (IsSound P) (handle svc auth env r req)
  unfolding handle
  handle-Keeps pairing req = decoded-Keeps svc env P kept _ _ serve_pair-Keeps
  handle-Keeps r req = record { at = (handle_open-Keeps svc env P kept r req).at }

  serve_mux-Keeps : (req : Request) → Keeps (IsSound P) (serve_mux svc auth env req)
  unfolding serve_mux
  serve_mux-Keeps req = record {
    at = (handle-Keeps (route req.method (split b'/' req.path)) req).at;
  }

  -- Whatever every method of the store keeps, serving a request keeps, whatever the request; and on the
  -- event bus, subscriptions stay distinct and no channel holds more than fits.
  pub serve-Keeps : (req : Request) → Keeps (IsSound P) (serve svc auth env req)
  unfolding serve
  serve-Keeps req = record {
    at = λ w h. elim (Bool-cases (is_public req.path)) [
      | inl open_path ↦ rw (serve, open_path) ((serve_mux-Keeps req).at w h)
      | inr closed ↦ elim (Option-cases (bearer req.authorization)) [
        | inl missing ↦ rw (serve, closed, missing) h
        | inr (token, sent) ↦
            rw (serve, closed, sent)
              ((then-Keeps svc env P kept {B = Response F}
                  (on_store (authenticate env.sum auth token))
                  (λ r v. elim r [
                    | err e ↦ ((401, failure "unauthorized"), v)
                    | ok client ↦ serve_mux svc auth env req v
                  ])
                  (Keeps-on_store _ (authenticate-Keeps env.sum auth P auth_kept token))
                  (λ client. record { at = (serve_mux-Keeps req).at })
                  (λ e. record { at = λ v k. k })).at
                w h)
      ]
    ];
  }

module _ {S C F : Type 0} ⦃fl : Float64 F⦄ (svc : Service S C F) (P : S → Type 0)
    (kept : Preserves svc.store P) where
  -- With or without an auth.Service, the router keeps it.
  pub new_router-Keeps :
      (auths : List (AuthService S F)) (env : Env S F) (req : Request)
      → All (λ (auth : AuthService S F). Preserves auth.store P) auths
      → Keeps (IsSound P) (new_router svc auths env req)
  unfolding new_router
  new_router-Keeps [] env req k = record {
    at = (handle_open-Keeps svc env P kept (route req.method (split b'/' req.path)) req).at;
  }
  new_router-Keeps (auth ∷ more) env req (k, ks) = record {
    at = (serve-Keeps svc auth env P kept k req).at;
  }
