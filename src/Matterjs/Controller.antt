-- ===== src/Matterjs/Controller.antt =====
-- internal/adapters/matterjs/client.go: each operation opens a connection of its own. The client is the
-- Matter controller that the service is given.
pub mod Sessions
pub mod Commanded
use manisa_app.Prelude.{ℕ, String, ◌||◌, List, [], ◌∷◌, ◌==◌, nat_eq, if◌then◌else◌}
use manisa_app.Domain.Error.{Exec, Result, ok, err, message}
use manisa_app.Text.Trim.{trim_space}
use manisa_app.Matter.{CommissionRequest, Command, Controller}
use manisa_app.Application.World.{lift, ◌>>=◌, wrapping}
use manisa_app.Matterjs.Wire.{Frame, Link, Dial, refused, opened, Net}
use manisa_app.Matterjs.Client.{
  Json, node_id_from_result, parse_node_id, commission_call, remove_node_call, execute_call,
}

-- the first message of a connection, which tells about the server
abbrev pub server_info : List Frame → Result (List Frame)
server_info [] = err (message "connection")
server_info (f ∷ rest) = if f.is_object then ok rest else err (message "json")

module _ {F : Type 0} where
  abbrev pub dial_first : List Dial → Exec (Net F) (List Frame × ℕ)
  dial_first [] net = (err (message "dial"), net)
  dial_first (refused ∷ more) net = (err (message "dial"), record net { dials = more })
  dial_first (opened incoming writable ∷ more) net =
      (ok (incoming, writable), record net { dials = more })

  -- websocket.Dial
  unfoldable pub dial : Exec (Net F) (List Frame × ℕ)
  dial net = dial_first net.dials net

  -- Use of an open connection, which ends with it.
  abbrev pub over : {A : Type 0} → Exec (Link F) A → List Frame → ℕ → Exec (Net F) A
  over f incoming writable net =
      let (r, link) = f (record {
        next_id = net.next_id;
        sent = net.sent;
        incoming = incoming;
        writable = writable;
      }) in
      (r, record net { next_id = link.next_id; sent = link.sent })

  -- withConnection
  unfoldable pub with_connection : {A : Type 0} → Exec (Link F) A → Exec (Net F) A
  with_connection f = do
    (incoming, writable) ← wrapping "connect matter server" dial
    frames ← wrapping "read matter server info" (lift (server_info incoming))
    over f frames writable

  unfoldable pub commission : Json → CommissionRequest → Exec (Net F) String
  commission json req =
      if trim_space req.setup_payload == ""
      then lift (err (message "setup payload is required"))
      else do
        result ← with_connection (commission_call req)
        wrapping "decode commissioned node" (lift (node_id_from_result json result))

  unfoldable pub remove_node : String → Exec (Net F) Unit
  remove_node node = do id ← lift (parse_node_id node); with_connection (remove_node_call id)

  unfoldable pub execute : String → Command F → Exec (Net F) Unit
  execute node command = do
    id ← lift (parse_node_id node)
    if nat_eq command.endpoint 0 || nat_eq command.cluster_id 0 || trim_space command.name == ""
        then lift (err (message "invalid matter command"))
        else with_connection (execute_call id command)

  abbrev pub matter_controller : Json → Controller (Net F) F
  matter_controller json = record {
    commission = commission json;
    remove_node = remove_node;
    execute = execute;
  }
