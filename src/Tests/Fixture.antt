-- ===== src/Tests/Fixture.antt =====
-- A concrete world: exact fractions for floats, a driver that never fails, a fabric that records what
-- is done to it, and one home with a dimmer.
use manisa_app.Prelude.{
  ℕ, ◌+◌, String, true, false, Option, none, some, List, [], ◌∷◌, pos, ◌==◌, if◌then◌else◌,
}
use manisa_app.Float.Ratio.{Ratio, ratio}
use manisa_app.Value.{Value, bool, int, float64}
use manisa_app.Text.Number.{format_uint, parse_uint}
use manisa_app.Domain.Error.{ok}
use manisa_app.Matter.{Controller, AttributeEvent}
use manisa_app.Storage.Tables.{HomeRow, DeviceRow, Tables}
use manisa_app.Storage.Engine.{Engine, Db, ran}
use manisa_app.Storage.States.{new_store}
use manisa_app.Application.Command.{DeviceCommandInput}
use manisa_app.Application.Devices.{CommissionDeviceInput}
use manisa_app.Application.EventBus.{EventBus}
use manisa_app.Application.World.{Service, World}

abbrev pub or_zero : Option ℕ → ℕ
or_zero none = 0
or_zero (some n) = n

abbrev pub write_value : Value Ratio → Option String
write_value (bool true) = some "true"
write_value (bool false) = some "false"
write_value (int (pos n)) = some (format_uint n)
write_value _ = none

abbrev pub read_value : String → Option (Value Ratio)
read_value s =
    if s == "true" then some (bool true) else if s == "false" then some (bool false) else none

abbrev pub engine : Engine Ratio
engine = record {
  outcome = λ n. ran true;
  clock = λ n. 1000 + n;
  format_time = format_uint;
  parse_time = λ s. or_zero (parse_uint 64 s);
  marshal = write_value;
  unmarshal = read_value;
}

-- The fabric is the list of what was done to it.
abbrev pub controller : Controller (List String) Ratio
controller = record {
  commission = λ request log. (ok "42", "commission" ∷ log);
  remove_node = λ external log. (ok tt, "remove" ∷ log);
  execute = λ external command log. (ok tt, command.name ∷ log);
}

abbrev pub service : Service Db (List String) Ratio
service = record { store = new_store engine; matter = some controller }

abbrev pub lab : HomeRow
lab = record { id = "home_1"; name = "Lab"; created_at = "7"; updated_at = "7" }

abbrev pub dimmer : DeviceRow
dimmer = record {
  id = "device_1";
  home_id = "home_1";
  room_id = none;
  name = "Dimmer";
  product_type = "dimmer_1gang";
  transport = "matter_wifi";
  external_node_id = some "41";
  created_at = "8";
  updated_at = "8";
}

abbrev pub tables : Tables
tables = record {
  homes = lab ∷ [];
  rooms = [];
  devices = dimmer ∷ [];
  device_states = [];
  local_clients = [];
}

abbrev pub one_subscriber : EventBus Ratio
one_subscriber = record {
  subscribers = 1 ∷ [];
  channel = λ i. record { cap = 2; queue = [] };
  next_sub_id = 1;
  sequence = 0;
}

abbrev pub world : World Db (List String) Ratio
world = record {
  db = record { tables = tables; statements = 0 };
  fabric = [];
  events = one_subscriber;
}

abbrev pub switched_on : AttributeEvent Ratio
switched_on = record { node_id = "41"; path = "1/6/0"; value = bool true; initial = false }

abbrev pub new_socket : CommissionDeviceInput
new_socket = record {
  home_id = " home_1 ";
  room_id = none;
  name = "Socket";
  product_type = "socket";
  transport = "matter_wifi";
  setup_payload = "MT:TEST";
  wifi_ssid = "ManisaLab";
  wifi_password = "secret";
  thread_dataset = "";
  network_only = false;
}

-- " level " is trimmed; 50 percent
abbrev pub dim : DeviceCommandInput Ratio
dim = record {
  endpoint = 1;
  capability = "level";
  action = "set_level";
  params = ("level", float64 (ratio.of_int (pos 50))) ∷ [];
}
