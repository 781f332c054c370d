-- ===== src/Matterjs/Commands.antt =====
-- What the service makes of a request passes the client's own checks.
use manisa_app.Prelude.{
  ℕ, ◌<◌, ◌≡◌, ◌≢◌, refl, inl, inr, String, true, false, ◌||◌, Option, none, some, ◌==◌, eq_iff,
  arith, nat_eq, Bool-cases,
}
use manisa_app.Float.{Float64, of_nat}
use manisa_app.Domain.Error.{ok}
use manisa_app.Text.Trim.{trim_space}
use manisa_app.Matter.{Command}
use manisa_app.Capability.Catalog.{on_off}
use manisa_app.Application.Command.{
  DeviceCommandInput, map_device_command, level_command, numeric_param,
}
use manisa_app.Matterjs.Client.{parse_node_id, execute_call}
use manisa_app.Matterjs.Controller.{execute, with_connection}

blank :
    (trim_space "on" == "" ≡ false)
    × (trim_space "off" == "" ≡ false)
    × (trim_space "toggle" == "" ≡ false)
    × (trim_space "moveToLevelWithOnOff" == "" ≡ false)
unfolding trim_space
blank = (refl, refl, refl, refl)

switch_named :
    (s : String) → (s == "on" || s == "off" || s == "toggle") ≡ true → (trim_space s == "") ≡ false
switch_named s h = elim (Bool-cases (s == "on")) [
  | inl t ↦ rw ((eq_iff s "on").0 t) blank.0
  | inr f ↦ elim (Bool-cases (s == "off")) [
    | inl t ↦ rw ((eq_iff s "off").0 t) blank.1
    | inr g ↦ rw ((eq_iff s "toggle").0 (ground arith)) blank.2
  ]
]

module _ {F : Type 0} ⦃fl : Float64 F⦄ where
  level_command_named :
      (endpoint : ℕ) (o : Option F) (c : Command F)
      → level_command endpoint o ≡ ok c
      → (c.endpoint ≡ endpoint) × (c.cluster_id ≢ 0) × ((trim_space c.name == "") ≡ false)
  unfolding level_command
  level_command_named endpoint none c h = cc
  level_command_named endpoint (some x) c h =
      elim (Bool-cases (fl.lt x (of_nat 0) || fl.lt (of_nat 100) x)) [
        | inl outside ↦ ground arith
        | inr inside ↦
            let name : c.name ≡ "moveToLevelWithOnOff" = ground arith in
            (ground arith, ground arith, rw name blank.3)
      ]

  map_device_command_named :
      (input : DeviceCommandInput F) (c : Command F)
      → map_device_command input ≡ ok c
      → (c.endpoint ≡ input.endpoint) × (c.cluster_id ≢ 0) × ((trim_space c.name == "") ≡ false)
  unfolding map_device_command
  map_device_command_named input c h = elim (Bool-cases (input.capability == on_off)) [
    | inl t ↦
        elim (Bool-cases
          (input.action == "on" || input.action == "off" || input.action == "toggle")) [
            | inl known ↦
                let name : c.name ≡ input.action = ground arith in
                (ground arith, ground arith, rw name (switch_named input.action known))
            | inr unknown ↦ ground arith
          ]
    | inr f ↦
        level_command_named input.endpoint (numeric_param input.params "level") c (ground arith)
  ]

  -- A command that the service makes of a request with an endpoint passes the checks of `Execute`: for a
  -- node id that can be read, executing it is the call of `device_command` with that id and the
  -- command's parts, over a connection of its own.
  pub execute-map_device_command :
      (input : DeviceCommandInput F) (command : Command F) (node : String) (n : ℕ)
      → map_device_command input ≡ ok command
      → 0 < input.endpoint
      → parse_node_id node ≡ ok n
      → execute node command ≡ with_connection (execute_call n command)
  unfolding execute
  execute-map_device_command input command node n mapped some_endpoint read =
      let (at, cluster, named) = map_device_command_named input command mapped in
      let e : nat_eq command.endpoint 0 ≡ false = ground arith in
      let k : nat_eq command.cluster_id 0 ≡ false = ground arith in rw (read, e, k, named) refl
