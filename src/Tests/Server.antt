-- ===== src/Tests/Server.antt =====
-- The connection to the Matter server.
use manisa_app.Prelude.{
  true, List, String, ◌≡◌, refl, String, false, none, some, [], ◌∷◌, arith, ◌==◌, if◌then◌else◌,
}
use manisa_app.Float.Ratio.{Ratio, ratio}
use manisa_app.Value.{bool, uint64}
use manisa_app.Domain.Error.{Exec, ok, err, message}
use manisa_app.Text.Number.{format_uint, parse_uint}
use manisa_app.Text.Trim.{trim_space}
use manisa_app.Matter.{Command, AttributeEvent}
use manisa_app.Matterjs.Wire.{WireResponse, WireEvent, Frame, Link, opened, Net}
use manisa_app.Matterjs.Client.{Json, call, node_id_from_result}
use manisa_app.Matterjs.Listener.{EventJson}
use manisa_app.Matterjs.Controller.Sessions.{Session}
use manisa_app.Application.World.{World}
use manisa_app.Application.EventBus.{new_event_bus}
use manisa_app.Matterjs.Replies.{call_lem}

abbrev pub response : String → String → WireResponse
response id result = record { message_id = id; result = result; error_code = none; details = "" }

abbrev pub answer : String → String → Frame
answer id result = record { is_object = true; response = some (response id result); event = none }

-- the first message of a connection
abbrev pub info : Frame
info = record { is_object = true; response = none; event = none }

-- A late answer to the first request comes before the answer to the second.
abbrev link : Link Ratio
link = record {
  next_id = 1;
  sent = [];
  incoming = answer "1" "late" ∷ answer "2" "fresh" ∷ [];
  writable = 1;
}

call_example : call "remove_node" (("node_id", uint64 42) ∷ []) link ≡ (
  ok "fresh",
  record link {
    next_id = 2;
    sent =
        record { message_id = "2"; command = "remove_node"; args = ("node_id", uint64 42) ∷ [] }
        ∷ [];
    incoming = [];
    writable = 0;
  },
)
unfolding format_uint
call_example =
    call_lem "remove_node" (("node_id", uint64 42) ∷ []) link (answer "1" "late" ∷ [])
      (answer "2" "fresh") (response "2" "fresh") [] (omega arith) (omega arith)
      ((response "1" "late", 1, refl, omega arith, refl), tt) refl refl refl

abbrev pub json : Json
json = record { node_id = λ raw. ok (some " 42"); text = λ raw. err (message "json") }

node_42 : node_id_from_result json "{\"node_id\": 42}" ≡ ok "42"
unfolding node_id_from_result trim_space parse_uint
node_42 = refl

abbrev turn_on : Command Ratio
turn_on = record { endpoint = 1; cluster_id = 6; name = "on"; payload = [] }

abbrev pub event_json : EventJson Ratio
event_json = record {
  parts = λ raw. ok (if raw == "nodes" then "node" ∷ [] else "42" ∷ raw ∷ "true" ∷ []);
  text = λ s. ok s;
  value = λ s. ok (bool true);
  node = λ s. ok ("42", ("1/6/0", "true") ∷ []);
}

abbrev event_of_path : String → WireEvent
event_of_path path = record { event = "attribute_updated"; payload = path }

abbrev updated : String → Frame
updated path = record { is_object = true; response = none; event = some (event_of_path path) }

abbrev report : String → AttributeEvent Ratio
report path = record { node_id = "42"; path = path; value = bool true; initial = false }

-- a client that has sent nothing, and a log in the place of the store
abbrev quiet : World (List String) (Net Ratio) Ratio
quiet = record {
  db = [];
  fabric = record {
    next_id = 0;
    sent = [];
    dials = opened (info ∷ answer "1" "nodes" ∷ updated "1/8/0" ∷ []) 1 ∷ [];
  };
  events = new_event_bus;
}

abbrev listening : Net Ratio
listening = record {
  next_id = 1;
  sent = record { message_id = "1"; command = "start_listening"; args = [] } ∷ [];
  dials = [];
}

start_session : Session quiet.fabric listening "start_listening" [] (response "1" "nodes")
unfolding format_uint
start_session = record {
  info = info;
  stale = [];
  own = answer "1" "nodes";
  rest = updated "1/8/0" ∷ [];
  writable = 1;
  opens = refl;
  can_write = omega arith;
  tells = refl;
  late = tt;
  response = refl;
  numbered = refl;
  counts = omega arith;
  counted = refl;
  sent = refl;
}

abbrev log_report : AttributeEvent Ratio → Exec (World (List String) (Net Ratio) Ratio) Unit
log_report report w = (ok tt, record w { db = report.path ∷ w.db })
