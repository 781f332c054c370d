-- ===== src/Tests/Abstract.antt =====
-- The program over SQLite and over a hub.
use manisa_app.Prelude.{
  String, true, false, ◌≡◌, refl, inl, inr, Option, some, none, List, [], ◌∷◌, All,
}
use manisa_app.Float.Ratio.{Ratio, ratio}
use manisa_app.Value.{
  Value, nil, bool, str, float64, float32, int, int8, int16, int32, int64, uint, uint8, uint16,
  uint32, uint64, number, list, object,
}
use manisa_app.Text.Number.{format_uint, parse_uint}
use manisa_app.Domain.{DeviceState}
use manisa_app.Storage.Engine.{Engine}
use manisa_app.Storage.Spec.{Hub}
use manisa_app.Storage.Spec.Rows.{db_of}
use manisa_app.Storage.Spec.Alike.{IsSettled}
use manisa_app.Matterjs.Wire.{Dial, opened}
use manisa_app.HttpApi.Requests.{Request}
use manisa_app.System.Abstract.{Input, requested, listened, received, on_sqlite, on_hub, IsFine}
use manisa_app.System.Abstract.Refined.{on_sqlite_refines}
use manisa_app.Tests.Auth.{phone}
use manisa_app.Tests.Server.{json, event_json, info, answer}
use manisa_app.Tests.Api.{env}
use manisa_app.Tests.Contract.{still, lab, plug}

-- only booleans have a text
abbrev switch_text : Value Ratio → Option String
switch_text (bool true) = some "true"
switch_text (bool false) = some "false"
switch_text _ = none

abbrev switches : Engine Ratio
switches = record still { marshal = switch_text }

abbrev paired_hub : Hub Ratio
paired_hub = record {
  homes = lab ∷ [];
  rooms = [];
  devices = record plug { external_node_id = some "42" } ∷ [];
  states = [];
  clients = phone ∷ [];
  asked = 0;
}

abbrev dials : List Dial
dials = opened (info ∷ answer "1" "nodes" ∷ []) 1 ∷ []

abbrev gets : String → Request
gets path = record {
  method = "GET";
  path = path;
  home_id = "";
  authorization = "Bearer AQID";
  body = [];
}

-- A subscription, a round of the loop in which the server says what there is, the value that the
-- subscriber gets, and the state of the device.
abbrev inputs : List (Input Ratio)
inputs =
    requested env (gets "/api/v1/events")
    ∷ listened event_json (λ net bus. 9) 1000000000
        (record { took = 5; stopped = true; stopped_waiting = false } ∷ [])
    ∷ received 1
    ∷ requested env (gets "/api/v1/devices/device_1/state")
    ∷ []

module _ (s : DeviceState Ratio) (t : s.updated_at ≡ 9) where
  settled : (v : Value Ratio) → s.value ≡ v → IsSettled switches s
  unfolding format_uint parse_uint
  settled (bool true) e = inr (record {
    encoded = "true";
    read = bool true;
    written = rw e refl;
    value = refl;
    again = refl;
    time = rw t refl;
  })
  settled (bool false) e = inr (record {
    encoded = "false";
    read = bool false;
    written = rw e refl;
    value = refl;
    again = refl;
    time = rw t refl;
  })
  settled nil e = inl (rw e refl)
  settled (str x) e = inl (rw e refl)
  settled (float64 x) e = inl (rw e refl)
  settled (float32 x) e = inl (rw e refl)
  settled (int x) e = inl (rw e refl)
  settled (int8 x) e = inl (rw e refl)
  settled (int16 x) e = inl (rw e refl)
  settled (int32 x) e = inl (rw e refl)
  settled (int64 x) e = inl (rw e refl)
  settled (uint x) e = inl (rw e refl)
  settled (uint8 x) e = inl (rw e refl)
  settled (uint16 x) e = inl (rw e refl)
  settled (uint32 x) e = inl (rw e refl)
  settled (uint64 x) e = inl (rw e refl)
  settled (number x) e = inl (rw e refl)
  settled (list x) e = inl (rw e refl)
  settled (object x) e = inl (rw e refl)

inputs-IsFine : All (IsFine switches json "code-1234") inputs
unfolding format_uint parse_uint
inputs-IsFine =
    (refl, (λ net bus event device mapping e. settled _ refl mapping.value refl, (tt, (refl, tt))))

on_sqlite_refines_example :
    ((on_sqlite switches json "code-1234" inputs paired_hub dials).0
      ≡ (on_hub switches json "code-1234" inputs paired_hub dials).0)
    × ((on_sqlite switches json "code-1234" inputs paired_hub dials).1.db
        ≡ db_of switches (on_hub switches json "code-1234" inputs paired_hub dials).1.db)
unfolding format_uint parse_uint
on_sqlite_refines_example =
    on_sqlite_refines switches json "code-1234" (λ n. refl) (λ n. refl) inputs paired_hub dials
      (record {
        homes = ((refl, refl), tt);
        rooms = tt;
        devices = ((refl, refl), tt);
        states = tt;
        clients = ((refl, refl), tt);
      })
      inputs-IsFine
