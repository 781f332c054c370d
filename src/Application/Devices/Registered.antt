-- ===== src/Application/Devices/Registered.antt =====
-- What `createDevice` stores.
use manisa_app.Prelude.{
  ℕ, ◌≡◌, ◌≢◌, refl, ◌⊎◌, inl, inr, true, false, ◌||◌, String, Option, List, ◌==◌, eq_iff, arith,
  Bool-cases,
}
use manisa_app.Float.{Float64}
use manisa_app.Domain.{Time, Device}
use manisa_app.Domain.Error.{Result, ok, err, Error}
use manisa_app.Text.Trim.{trim_space, trim_space_idem}
use manisa_app.Platform.Id.{new_id}
use manisa_app.Application.World.{Service, World, Exec-cases, Result-cases}
use manisa_app.Application.Devices.{is_listed, is_transport, register_device}

-- A device that may be stored: its texts are trimmed and not empty, its product is in the catalog
-- and its transport is one of the two.
pub record IsDevice (d : Device) : Type 0 where
  pub trimmed :
      (trim_space d.home_id ≡ d.home_id)
      × (trim_space d.name ≡ d.name)
      × (trim_space d.product_type ≡ d.product_type)
  pub named : (d.home_id ≢ "") × (d.name ≢ "")
  pub listed : is_listed d.product_type ≡ true
  pub transport : is_transport d.transport ≡ true

module _ {S C F : Type 0} ⦃fl : Float64 F⦄ (svc : Service S C F) where
  -- The device that `createDevice` makes with an id.
  abbrev pub made :
      Time → String → String → String → String → String → Option String → Option String → Device
  made now id home name product transport room node = record {
    id = id;
    home_id = trim_space home;
    room_id = room;
    name = trim_space name;
    product_type = trim_space product;
    transport = trim_space transport;
    external_node_id = node;
    created_at = now;
    updated_at = now;
  }

  made-IsDevice :
      (now : Time) (id home name product transport : String) (room external : Option String)
      → (trim_space home == ""
          || trim_space name == ""
          || trim_space product == ""
          || trim_space transport == "")
        ≡ false
      → is_listed (trim_space product) ≡ true
      → is_transport (trim_space transport) ≡ true
      → IsDevice (made now id home name product transport room external)
  made-IsDevice now id home name product transport room external full listed known = record {
    trimmed = (trim_space_idem home, trim_space_idem name, trim_space_idem product);
    named =
        (ground (arith, eq_iff (trim_space home) ""), ground (arith, eq_iff (trim_space name) ""));
    listed = listed;
    transport = known;
  }

  -- with the trimmed texts of the call, and its time
  abbrev pub IsAsked : Device → Time → String → String → String → String → Type 0
  IsAsked d now home name product transport =
      (d.home_id ≡ trim_space home)
      × (d.name ≡ trim_space name)
      × (d.product_type ≡ trim_space product)
      × (d.transport ≡ trim_space transport)
      × (d.created_at ≡ now)
      × (d.updated_at ≡ now)

  -- `createDevice` either changes nothing and fails, or hands the store a device that may be stored,
  -- with the node and room that it was given and its other texts trimmed; it succeeds with that device
  -- just if the store does.
  pub register_device_lem :
      (now : Time) (random : Option (List ℕ)) (home name product transport : String)
      (room external : Option String) (w w' : World S C F) (r : Result Device)
      → register_device svc now random home name product transport room external w ≡ (r, w')
      → ((w' ≡ w) × ((e : Error) × (r ≡ err e)))
        ⊎ ((d : Device) × IsDevice d
            × (d.external_node_id ≡ external)
            × (d.room_id ≡ room)
            × IsAsked d now home name product transport
            × (w' ≡ record w { db = (svc.store.create_device d w.db).1 })
            × ((((svc.store.create_device d w.db).0 ≡ ok tt) × (r ≡ ok d))
                ⊎ ((e : Error) × ((svc.store.create_device d w.db).0 ≡ err e) × (r ≡ err e))))
  unfolding register_device
  register_device_lem now random home name product transport room external w w' r h =
      elim (Bool-cases (
        trim_space home == ""
        || trim_space name == ""
        || trim_space product == ""
        || trim_space transport == "")) [
          | inl blank ↦ inl (ground arith)
          | inr full ↦ elim (Bool-cases (is_listed (trim_space product))) [
            | inr unlisted ↦ inl (ground arith)
            | inl listed ↦ elim (Bool-cases (is_transport (trim_space transport))) [
              | inr unknown ↦ inl (ground arith)
              | inl known ↦ elim (Result-cases (new_id random "device")) [
                | inr (e, no_id) ↦ inl (ground arith)
                | inl (id, fresh) ↦
                    let d = made now id home name product transport room external in
                    let fine =
                      made-IsDevice now id home name product transport room external full listed
                        known in
                    let asked : IsAsked d now home name product transport =
                      (refl, refl, refl, refl, refl, refl) in
                    inr (elim (Exec-cases (svc.store.create_device d w.db)) [
                      | inl (_, db, stored) ↦
                          (d, fine, refl, refl, asked, ground arith, inl (ground arith))
                      | inr (e, db, failed) ↦ (
                        d,
                        fine,
                        refl,
                        refl,
                        asked,
                        ground arith,
                        inr (e, ground arith, ground arith),
                      )
                    ])
              ]
            ]
          ]
        ]
