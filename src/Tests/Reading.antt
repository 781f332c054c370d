-- ===== src/Tests/Reading.antt =====
-- A client that reads the state of a device.
use manisa_app.Prelude.{true, ◌≡◌, refl, [], ◌∷◌}
use manisa_app.Float.Ratio.{Ratio, ratio}
use manisa_app.Value.{bool}
use manisa_app.Domain.{DeviceState}
use manisa_app.Text.Trim.{trim_space}
use manisa_app.Text.Split.{split, has_prefix, trim_prefix}
use manisa_app.Text.Number.{format_uint, parse_uint}
use manisa_app.Application.EventBus.{new_event_bus}
use manisa_app.Application.World.{World}
use manisa_app.Storage.Engine.{Db, query, exec}
use manisa_app.Storage.Tables.{order_by, insert_sorted, touch_client}
use manisa_app.Storage.States.{
  state_row, client_row, decode_row, decode_rows, get_local_client_by_token_hash,
  touch_local_client,
}
use manisa_app.Storage.Integrity.{IsKeyed}
use manisa_app.Storage.Refine.{view, Lists}
use manisa_app.HttpApi.Route.{route, route_api}
use manisa_app.HttpApi.Requests.{Request}
use manisa_app.HttpApi.Handlers.{bearer, serve, some_states}
use manisa_app.Auth.{authenticate, admit}
use manisa_app.Matterjs.Wire.{Net, new_client}
use manisa_app.Platform.Id.{hex_encode}
use manisa_app.System.{app, auth_service}
use manisa_app.System.States.{state_served}
use manisa_app.Tests.Fixture.{tables, engine, dimmer}
use manisa_app.Tests.Auth.{phone}
use manisa_app.Tests.Server.{json}
use manisa_app.Tests.Api.{env}

abbrev switched_on_state : DeviceState Ratio
switched_on_state = record {
  device_id = "device_1";
  endpoint = 1;
  capability = "on_off";
  value = bool true;
  source = "matter";
  updated_at = 9;
}

abbrev lit : World Db (Net Ratio) Ratio
lit = record {
  db = record {
    tables = record tables {
      device_states = state_row engine switched_on_state "true" ∷ [];
      local_clients = client_row engine phone ∷ [];
    };
    statements = 0;
  };
  fabric = new_client [];
  events = new_event_bus;
}

abbrev asks : Request
asks = record {
  method = "GET";
  path = "/api/v1/devices/device_1/state";
  home_id = "";
  authorization = "Bearer AQID";
  body = [];
}

lit-IsKeyed : IsKeyed lit.db.tables
lit-IsKeyed = record {
  homes = (refl, tt);
  rooms = tt;
  devices = (refl, tt);
  nodes = (refl, tt);
  states = (refl, tt);
  clients = (refl, tt);
}

state_served_example :
    ((serve (app engine json) (auth_service engine "code-1234") env asks lit).0
      ≡ (200, some_states (switched_on_state ∷ [])))
    × Lists engine (view engine lit.db.tables) "device_1" (switched_on_state ∷ [])
unfolding trim_space split has_prefix trim_prefix bearer route route_api authenticate query exec
    get_local_client_by_token_hash touch_local_client touch_client order_by insert_sorted decode_row
    decode_rows format_uint parse_uint admit hex_encode
state_served_example =
    state_served engine json "code-1234" (λ n. (true, refl)) env asks "AQID" phone "device_1" dimmer
      (switched_on_state ∷ []) lit lit-IsKeyed refl refl refl refl refl refl refl
