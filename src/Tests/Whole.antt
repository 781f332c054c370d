-- ===== src/Tests/Whole.antt =====
-- The parts together: a command that goes to the Matter server, and a run of the whole system.
use manisa_app.Prelude.{◌≡◌, refl, [], ◌∷◌, arith}
use manisa_app.Float.Ratio.{Ratio, ratio}
use manisa_app.Domain.Error.{wrap}
use manisa_app.Text.Trim.{trim_space}
use manisa_app.Text.Number.{format_uint, parse_uint}
use manisa_app.Matter.{Command}
use manisa_app.Capability.Catalog.{supports, get, catalog, has_capability}
use manisa_app.Application.Command.{map_device_command}
use manisa_app.Application.Command.Writable.{request}
use manisa_app.Application.EventBus.{new_event_bus}
use manisa_app.Application.World.{World}
use manisa_app.Application.Devices.{execute_device_command}
use manisa_app.Storage.Engine.{Db, query}
use manisa_app.Storage.Sqlite.{get_device, scan_device}
use manisa_app.Matterjs.Wire.{opened, Net}
use manisa_app.Matterjs.Client.{reply, parse_node_id, device_args}
use manisa_app.Matterjs.Controller.Sessions.{Session, done_of}
use manisa_app.Matterjs.Controller.Commanded.{Commandable, execute_device_command_answered}
use manisa_app.System.{app}
use manisa_app.Tests.Fixture.{engine, dimmer, tables}
use manisa_app.Tests.Server.{answer, info, response, json}

-- A late answer to an earlier request comes before the answer to the command.
abbrev fabric : Net Ratio
fabric = record {
  next_id = 1;
  sent = [];
  dials = opened (info ∷ answer "1" "late" ∷ answer "2" "null" ∷ []) 1 ∷ [];
}

abbrev at_home : World Db (Net Ratio) Ratio
at_home = record {
  db = record { tables = tables; statements = 0 };
  fabric = fabric;
  events = new_event_bus;
}

abbrev turn_on : Command Ratio
turn_on = record { endpoint = 1; cluster_id = 6; name = "on"; payload = [] }

abbrev sent_fabric : Net Ratio
sent_fabric = record {
  next_id = 2;
  sent =
      record { message_id = "2"; command = "device_command"; args = device_args 41 turn_on } ∷ [];
  dials = [];
}

able :
    Commandable
      (app engine json)
      json
      (request 1 "on_off" "on" [])
      (scan_device engine dimmer)
      41
      turn_on
unfolding map_device_command parse_node_id trim_space parse_uint supports get catalog has_capability
able = record {
  node = "41";
  commissioned = refl;
  node_not_blank = refl;
  read = refl;
  supported = refl;
  mapped = refl;
}

session : Session fabric sent_fabric "device_command" (device_args 41 turn_on) (response "2" "null")
unfolding format_uint
session = record {
  info = info;
  stale = answer "1" "late" ∷ [];
  own = answer "2" "null";
  rest = [];
  writable = 1;
  opens = refl;
  can_write = omega arith;
  tells = refl;
  late = ((response "1" "late", 1, refl, omega arith, refl), tt);
  response = refl;
  numbered = refl;
  counts = omega arith;
  counted = refl;
  sent = refl;
}

execute_device_command_answered_example :
    execute_device_command (app engine json) "device_1" (request 1 "on_off" "on" []) at_home ≡ (
      wrap "execute matter command" (done_of (reply (response "2" "null"))),
      record at_home { db = record { tables = tables; statements = 1 }; fabric = sent_fabric },
    )
unfolding trim_space get_device query
execute_device_command_answered_example =
    execute_device_command_answered (app engine json) json "device_1" (request 1 "on_off" "on" [])
      (scan_device engine dimmer) 41 turn_on at_home (record { tables = tables; statements = 1 })
      sent_fabric (response "2" "null") refl refl refl able session
