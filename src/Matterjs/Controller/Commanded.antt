-- ===== src/Matterjs/Controller/Commanded.antt =====
-- A command that is given to the service, all the way to the Matter server and back.
use manisa_app.Prelude.{ℕ, ◌<◌, ◌≡◌, refl, String, true, false, some, ◌==◌, arith}
use manisa_app.Float.{Float64}
use manisa_app.Domain.{Device}
use manisa_app.Domain.Error.{ok, wrap}
use manisa_app.Text.Trim.{trim_space}
use manisa_app.Matter.{Command}
use manisa_app.Capability.Catalog.{supports}
use manisa_app.Application.Command.{DeviceCommandInput, map_device_command}
use manisa_app.Application.World.{Service, World, ◌>>=◌}
use manisa_app.Application.Devices.{trimmed_command, is_blank, execute_on, execute_device_command}
use manisa_app.Matterjs.Wire.{WireResponse, Net}
use manisa_app.Matterjs.Client.{Json, reply, parse_node_id, device_args}
use manisa_app.Matterjs.Commands.{execute-map_device_command}
use manisa_app.Matterjs.Controller.{matter_controller}
use manisa_app.Matterjs.Controller.Sessions.{Session, done_of, execute_call_answered}

module _ {S F : Type 0} ⦃fl : Float64 F⦄ (svc : Service S (Net F) F) (json : Json) where
  -- A device that the service knows, which can be given the command: it has a node on the fabric, and
  -- its product type supports the capability.
  pub record Commandable (raw : DeviceCommandInput F) (device : Device) (n : ℕ)
      (command : Command F) : Type 0 where
    pub node : String
    pub commissioned : device.external_node_id ≡ some node
    pub node_not_blank : (trim_space node == "") ≡ false
    pub read : parse_node_id node ≡ ok n
    pub supported : supports device.product_type raw.endpoint (trim_space raw.capability) ≡ true
    pub mapped : map_device_command (trimmed_command svc raw) ≡ ok command

  execute_on_answered :
      (raw : DeviceCommandInput F) (device : Device) (n : ℕ) (command : Command F)
      (w : World S (Net F) F) (fabric : Net F) (r : WireResponse)
      → 0 < raw.endpoint
      → Commandable raw device n command
      → Session w.fabric fabric "device_command" (device_args n command) r
      → execute_on svc (matter_controller json) device (trimmed_command svc raw) w
        ≡ (wrap "execute matter command" (done_of (reply r)), record w { fabric = fabric })
  unfolding execute_on
  execute_on_answered raw device n command w fabric r some_endpoint able session =
      let sends =
        execute-map_device_command (trimmed_command svc raw) command able.node n able.mapped
          some_endpoint able.read in
      let answered = execute_call_answered n command w.fabric fabric r session in
      rw
        (
          able.commissioned, able.node_not_blank, able.supported, able.mapped, ◌>>=◌, sends,
          answered,
        )
        refl

  -- Over the client of the Matter server, a command that is not blank, for a device that the store
  -- finds and that can be given the command, in a session with the server that answers it: exactly one
  -- request is sent, `device_command` with the device's node and the command that the input is mapped
  -- to; the result is the server's answer to it; and the store's state is the one after the lookup, and
  -- the event bus unchanged.
  pub execute_device_command_answered :
      (id : String) (raw : DeviceCommandInput F) (device : Device) (n : ℕ) (command : Command F)
      (w : World S (Net F) F) (db : S) (fabric : Net F) (r : WireResponse)
      → svc.matter ≡ some (matter_controller json)
      → is_blank svc (trim_space id) (trimmed_command svc raw) ≡ false
      → svc.store.get_device (trim_space id) w.db ≡ (ok device, db)
      → Commandable raw device n command
      → Session w.fabric fabric "device_command" (device_args n command) r
      → execute_device_command svc id raw w
        ≡ (wrap "execute matter command" (done_of (reply r)), record w { db = db; fabric = fabric })
  unfolding execute_device_command
  execute_device_command_answered id raw device n command w db fabric r present full found able
        session =
      let e : 0 < raw.endpoint = ground arith in
      let answered =
        execute_on_answered raw device n command (record w { db = db }) fabric r e able session in
      rw (full, present, ◌>>=◌, found, answered) refl
