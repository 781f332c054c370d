-- ===== src/Application/Devices/Commissioned.antt =====
-- How commissioning can end, and that a node is kept on the fabric only with its device.
use manisa_app.Prelude.{
  ℕ, ◌≡◌, refl, ◌⊎◌, inl, inr, true, false, Option, none, some, List, String, arith, Bool-cases,
  Option-cases,
}
use manisa_app.Float.{Float64}
use manisa_app.Domain.{Time, Device}
use manisa_app.Domain.Error.{Result, ok, err, Error, wrapped, message, sentinel, invalid_input}
use manisa_app.Matter.{Controller}
use manisa_app.Application.World.{Service, World, Exec-cases}
use manisa_app.Application.Devices.{
  CommissionDeviceInput, trimmed, request_of, is_acceptable, settle, commission_valid,
  commission_device, register_device,
}
use manisa_app.Application.Devices.Registered.{IsDevice, register_device_lem}

module _ {S C F : Type 0} ⦃fl : Float64 F⦄ (svc : Service S C F) where
  -- The controller that there is has put a node on the fabric for a request that is acceptable.
  pub record Commissioned (raw : CommissionDeviceInput) (w : World S C F) : Type 0 where
    pub controller : Controller C F
    pub external : String
    pub fabric : C
    pub present : svc.matter ≡ some controller
    pub acceptable : is_acceptable svc (trimmed svc raw) ≡ true
    pub done :
        controller.commission (request_of svc (trimmed svc raw)) w.fabric ≡ (ok external, fabric)

  -- The node is kept: a device that is bound to it was stored, and is the result.
  pub record Kept (raw : CommissionDeviceInput) (w w' : World S C F) (r : Result Device)
      : Type 0 where
    pub node : Commissioned raw w
    pub device : Device
    pub valid : IsDevice device
    pub bound : device.external_node_id ≡ some node.external
    pub stored : svc.store.create_device device w.db ≡ (ok tt, w'.db)
    pub fabric : w'.fabric ≡ node.fabric
    pub events : w'.events ≡ w.events
    pub result : r ≡ ok device

  -- The device was not stored, or the store failed to: the controller was told to remove the node
  -- again, and the result is an error.
  pub record RolledBack (raw : CommissionDeviceInput) (w w' : World S C F) (r : Result Device)
      : Type 0 where
    pub node : Commissioned raw w
    pub removed : w'.fabric ≡ (node.controller.remove_node node.external node.fabric).1
    pub cause : Error
    pub db : (w'.db ≡ w.db) ⊎ ((d : Device) × (svc.store.create_device d w.db ≡ (err cause, w'.db)))
    pub events : w'.events ≡ w.events
    pub result : r ≡ err (wrapped "register commissioned device" cause)

  -- The controller was asked in vain; the store was not touched.
  pub record Unpaired (raw : CommissionDeviceInput) (w w' : World S C F) (r : Result Device)
      : Type 0 where
    pub controller : Controller C F
    pub cause : Error
    pub present : svc.matter ≡ some controller
    pub failed :
        controller.commission (request_of svc (trimmed svc raw)) w.fabric ≡ (err cause, w'.fabric)
    pub db : w'.db ≡ w.db
    pub events : w'.events ≡ w.events
    pub result : r ≡ err (wrapped "commission matter device" cause)

  settle_lem :
      (now : Time) (random : Option (List ℕ)) (raw : CommissionDeviceInput)
      (w v v' w' : World S C F) (made r : Result Device) (node : Commissioned raw w)
      → v ≡ record w { fabric = node.fabric }
      → register_device svc now random
          (trimmed svc raw).home_id
          (trimmed svc raw).name
          (trimmed svc raw).product_type
          (trimmed svc raw).transport
          raw.room_id
          (some node.external)
          v
        ≡ (made, v')
      → settle svc node.controller node.external made v' ≡ (r, w')
      → Kept raw w w' r ⊎ RolledBack raw w w' r
  unfolding settle
  settle_lem now random raw w v v' w' (ok d) r node same h k =
      elim (register_device_lem svc now random _ _ _ _ raw.room_id (some node.external) v v' (ok d)
        h) [
          | inl (kept, (e, failed)) ↦ cc
          | inr (d', valid, bound, room, asked, state, inr (e, stored, failed)) ↦ cc
          | inr (d', valid, bound, room, asked, state, inl (stored, made)) ↦ inl (record {
            node = node;
            device = d';
            valid = valid;
            bound = bound;
            stored = ground arith;
            fabric = ground arith;
            events = ground arith;
            result = ground arith;
          })
        ]
  settle_lem now random raw w v v' w' (err e) r node same h k =
      elim (register_device_lem svc now random _ _ _ _ raw.room_id (some node.external) v v' (err e)
        h) [
          | inl (kept, (e', failed)) ↦ inr (record {
            node = node;
            removed = ground arith;
            cause = e;
            db = inl (ground arith);
            events = ground arith;
            result = ground arith;
          })
          | inr (d', valid, bound, room, asked, state, inl (stored, made)) ↦ cc
          | inr (d', valid, bound, room, asked, state, inr (e', stored, failed)) ↦ inr (record {
            node = node;
            removed = ground arith;
            cause = e;
            db = inr (d', ground arith);
            events = ground arith;
            result = ground arith;
          })
        ]

  -- Commissioning ends in one of four ways: there is no controller or the request is not acceptable, it
  -- fails and changes nothing; the controller fails, the database is not touched, and its error is the
  -- result; the node is kept, and the device that was stored for it is the result; or no device was
  -- stored for it, the controller was told to remove the node, and the result is an error. In the last
  -- two the request was acceptable, and in none is an event published.
  pub commission_device_lem :
      (now : Time) (random : Option (List ℕ)) (raw : CommissionDeviceInput) (w w' : World S C F)
      (r : Result Device)
      → commission_device svc now random raw w ≡ (r, w')
      → (((svc.matter ≡ none) ⊎ (is_acceptable svc (trimmed svc raw) ≡ false))
          × (w' ≡ w)
          × ((e : Error) × (r ≡ err e)))
        ⊎ Unpaired raw w w' r
        ⊎ Kept raw w w' r
        ⊎ RolledBack raw w w' r
  unfolding commission_device commission_valid
  commission_device_lem now random raw w w' r h = elim (Option-cases svc.matter) [
    | inl absent ↦
        inl (inl absent, ground arith, (message "matter controller unavailable", ground arith))
    | inr (controller, present) ↦ elim (Bool-cases (is_acceptable svc (trimmed svc raw))) [
      | inr refused ↦ inl (inr refused, ground arith, (sentinel invalid_input, ground arith))
      | inl acceptable ↦
          elim (Exec-cases (controller.commission (request_of svc (trimmed svc raw)) w.fabric)) [
            | inr (e, fabric, failed) ↦ inr (
                inl (record {
                  controller = controller;
                  cause = e;
                  present = present;
                  failed = ground arith;
                  db = ground arith;
                  events = ground arith;
                  result = ground arith;
                }))
            | inl (external, fabric, done) ↦
                let input = trimmed svc raw in
                let v : World S C F = record w { fabric = fabric } in
                let (made, v') =
                  register_device svc now random input.home_id input.name input.product_type
                    input.transport input.room_id (some external) v in
                inr (
                  inr (
                    settle_lem now random raw w v v' w' made r
                      (record {
                        controller = controller;
                        external = external;
                        fabric = fabric;
                        present = present;
                        acceptable = acceptable;
                        done = done;
                      })
                      refl refl (ground arith)))
          ]
    ]
  ]
