-- ===== src/Application/Devices/Executed.antt =====
-- Which commands reach the Matter fabric.
use manisa_app.Prelude.{
  ◌≡◌, refl, ◌⊎◌, inl, inr, String, some, ◌==◌, arith, Bool-cases, Option-cases,
}
use manisa_app.Float.{Float64}
use manisa_app.Domain.{Device, DeviceDescriptor}
use manisa_app.Domain.Error.{Result, ok, wrap}
use manisa_app.Text.Trim.{trim_space}
use manisa_app.Matter.{Controller, Command}
use manisa_app.Capability.Catalog.{get, supports}
use manisa_app.Application.Command.{DeviceCommandInput, map_device_command}
use manisa_app.Application.Command.Writable.{OffersWritable, writable_of_command}
use manisa_app.Application.World.{Service, World, Exec-cases, Result-cases}
use manisa_app.Application.Devices.{trimmed_command, is_blank, execute_on, execute_device_command}

module _ {S C F : Type 0} ⦃fl : Float64 F⦄ (svc : Service S C F) where
  -- A command was sent: it is the one that the request is mapped to, for the node of the device that
  -- was asked for, and the capability is one that the catalog marks writable on that endpoint.
  pub record Sent (id : String) (raw : DeviceCommandInput F) (w w' : World S C F)
      (r : Result (Unit {0})) : Type 0 where
    pub controller : Controller C F
    pub device : Device
    pub external : String
    pub command : Command F
    pub descriptor : DeviceDescriptor
    pub sent : Result (Unit {0})
    pub present : svc.matter ≡ some controller
    pub found : svc.store.get_device (trim_space id) w.db ≡ (ok device, w'.db)
    pub commissioned : device.external_node_id ≡ some external
    pub product : get device.product_type ≡ some descriptor
    pub writable : OffersWritable raw.endpoint (trim_space raw.capability) descriptor.endpoints
    pub mapped : map_device_command (trimmed_command svc raw) ≡ ok command
    pub executed : controller.execute external command w.fabric ≡ (sent, w'.fabric)
    pub answered : r ≡ wrap "execute matter command" sent

  execute_on_lem :
      (id : String) (raw : DeviceCommandInput F) (controller : Controller C F) (device : Device)
      (w v w' : World S C F) (r : Result (Unit {0}))
      → svc.matter ≡ some controller
      → svc.store.get_device (trim_space id) w.db ≡ (ok device, v.db)
      → v ≡ record w { db = v.db }
      → execute_on svc controller device (trimmed_command svc raw) v ≡ (r, w')
      → (w'.events ≡ w.events) × ((w'.fabric ≡ w.fabric) ⊎ Sent id raw w w' r)
  unfolding execute_on
  execute_on_lem id raw controller device w v w' r present found same h =
      elim (Option-cases device.external_node_id) [
        | inl unknown ↦ ground arith
        | inr (external, commissioned) ↦ elim (Bool-cases (trim_space external == "")) [
          | inl blank ↦ ground arith
          | inr full ↦
              elim (Bool-cases
                (supports device.product_type raw.endpoint (trim_space raw.capability))) [
                  | inr unsupported ↦ ground arith
                  | inl supported ↦
                      elim (Result-cases (map_device_command (trimmed_command svc raw))) [
                        | inr (e, refused) ↦ ground arith
                        | inl (command, mapped) ↦
                            let (d, product, writable) =
                              writable_of_command F device.product_type (trimmed_command svc raw)
                                command supported mapped in
                            let (sent, fabric) = controller.execute external command w.fabric in
                            (
                              ground arith,
                              inr (record {
                                controller = controller;
                                device = device;
                                external = external;
                                command = command;
                                descriptor = d;
                                sent = sent;
                                present = present;
                                found = ground arith;
                                commissioned = commissioned;
                                product = product;
                                writable = writable;
                                mapped = mapped;
                                executed = ground arith;
                                answered = ground arith;
                              }),
                            )
                      ]
                ]
        ]
      ]

  -- Executing a command leaves the event bus alone, and the fabric too, unless a command was sent as
  -- `Sent` says; what the fabric answers is then the result.
  pub execute_device_command_lem :
      (id : String) (raw : DeviceCommandInput F) (w w' : World S C F) (r : Result (Unit {0}))
      → execute_device_command svc id raw w ≡ (r, w')
      → (w'.events ≡ w.events) × ((w'.fabric ≡ w.fabric) ⊎ Sent id raw w w' r)
  unfolding execute_device_command execute_on
  execute_device_command_lem id raw w w' r h =
      elim (Bool-cases (is_blank svc (trim_space id) (trimmed_command svc raw))) [
        | inl blank ↦ ground arith
        | inr full ↦ elim (Option-cases svc.matter) [
          | inl absent ↦ ground arith
          | inr (controller, present) ↦
              elim (Exec-cases (svc.store.get_device (trim_space id) w.db)) [
                | inr (e, db, missing) ↦ ground arith
                | inl (device, db, found) ↦
                    execute_on_lem id raw controller device w (record w { db = db }) w' r present
                      found refl (ground arith)
              ]
        ]
      ]
