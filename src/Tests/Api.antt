-- ===== src/Tests/Api.antt =====
-- The HTTP API.
use manisa_app.Prelude.{
  ◌≡◌, refl, ◌⊎◌, String, true, false, none, some, List, [], ◌∷◌, if◌then◌else◌,
}
use manisa_app.Float.Ratio.{Ratio, ratio}
use manisa_app.Text.Split.{split}
use manisa_app.Application.World.{World}
use manisa_app.Storage.Engine.{Db}
use manisa_app.HttpApi.Route.{route, route_api, commands_of, live}
use manisa_app.HttpApi.Requests.{Codec, Request, DeviceCommandRequest, decode_json}
use manisa_app.HttpApi.Handlers.{Env, failure, serve, serve_mux, is_public}
use manisa_app.HttpApi.Guard.{Untouched, IsKnown, serve_lem}
use manisa_app.Tests.Fixture.{tables, service, world, dim}
use manisa_app.Tests.Auth.{codes, hub, paired}

abbrev dim_request : DeviceCommandRequest Ratio
dim_request = record {
  endpoint = dim.endpoint;
  capability = dim.capability;
  action = dim.action;
  params = dim.params;
}

abbrev pub codec : Codec Ratio
codec = record {
  pair_request = λ bytes cut. none;
  create_home_request = λ bytes cut. some (record { name = "Lab" });
  create_room_request = λ bytes cut. none;
  create_device_request = λ bytes cut. none;
  commission_request = λ bytes cut. none;
  command_request =
      λ bytes cut. elim bytes [ [] ↦ none | b ∷ more ↦ if cut then none else some dim_request ];
}

abbrev pub env : Env Db Ratio
env = record {
  codec = codec;
  sum = codes;
  ping = λ db. true;
  accept = λ req. none;
  unmatched = λ req. (404, failure "");
  now = 40;
  random = some (9 ∷ []);
  raw = none;
}

abbrev listen : Request
listen = record {
  method = "GET";
  path = "/api/v1/events";
  home_id = "";
  authorization = "Bearer AQID";
  body = [];
}

abbrev known : World Db (List String) Ratio
known = record world { db = paired }

serve_example :
    (Untouched service hub env known (serve service hub env listen known).1
      × ((is_public "/api/v1/events" ≡ true)
          ⊎ ((serve service hub env listen known).0 ≡ (401, failure "unauthorized"))))
    ⊎ ((is_public "/api/v1/events" ≡ false)
        × IsKnown service hub env listen known
        × ((v : World Db (List String) Ratio) × Untouched service hub env known v
            × (serve_mux service hub env listen v ≡ (
              (serve service hub env listen known).0,
              (serve service hub env listen known).1,
            ))))
serve_example =
    serve_lem service hub env listen known (serve service hub env listen known).1
      (serve service hub env listen known).0 refl

routes :
    (route "HEAD" (split b'/' "/health/live") ≡ live)
    × (route "POST" (split b'/' "/api/v1/devices/d1/commands") ≡ commands_of "d1")
unfolding route route_api split
routes = (refl, refl)

abbrev post : Request
post = record listen {
  method = "POST";
  path = "/api/v1/devices/device_7/commands";
  body = 0x7b ∷ [];
}

abbrev looked : World Db (List String) Ratio
looked = record world { db = record { tables = tables; statements = 1 } }

no_body :
    (decode_json codec.command_request [] ≡ none)
    × (decode_json codec.command_request (0x7b ∷ []) ≡ some dim_request)
unfolding decode_json
no_body = (refl, refl)

-- A body within the limit is not cut.
whole_body :
    decode_json {A = String} (λ bytes cut. if cut then none else some "whole") [] ≡ some "whole"
unfolding decode_json
whole_body = refl
