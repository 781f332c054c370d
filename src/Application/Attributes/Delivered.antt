-- ===== src/Application/Attributes/Delivered.antt =====
-- A report over the SQLite store, from the fabric to the table and to the subscribers.
use manisa_app.Prelude.{
  ℕ, ◌+◌, ◌≡◌, refl, inl, inr, ◌∙◌, Bool, true, String, some, List, [], ◌∷◌, ◌++◌, any, ◌==◌,
  eq_refl, arith, Bool-cases,
}
use manisa_app.Float.{Float64}
use manisa_app.Domain.{Time, DeviceState}
use manisa_app.Domain.Error.{ok}
use manisa_app.Matter.{AttributeEvent}
use manisa_app.Capability.State.{StateMapping, from_matter_attribute}
use manisa_app.Application.EventBus.{add_one, stamp, contains, publish}
use manisa_app.Application.EventBus.Channels.{keep_last}
use manisa_app.Application.EventBus.Delivery.{IsReady, publish-queue}
use manisa_app.Application.World.{Service, World}
use manisa_app.Application.Attributes.Published.{apply_matter_attribute_of}
use manisa_app.Application.Attributes.{state_of, event_of, apply_matter_attribute}
use manisa_app.Storage.Tables.{
  DeviceRow, StateRow, Tables, find, opt_eq, has_device, same_key, upsert_state, overwrite,
}
use manisa_app.Storage.Engine.{Engine, Db, ran, exec_ran}
use manisa_app.Storage.Sqlite.{scan_device}
use manisa_app.Storage.States.{state_row, upsert_encoded, upsert_device_state, new_store}
use manisa_app.Storage.Upserts.{row_of, row_of-upsert, same_key_refl}
use manisa_app.Storage.Lookups.{by_node, get_device_by_external_node_id_found}

-- A row that was found is in the table, under its id too.
has_device_of_found :
    (external : String) (row : DeviceRow) (rows : List DeviceRow)
    → find (λ r. opt_eq r.external_node_id external) rows ≡ some row
    → any (λ r. r.id == row.id) rows ≡ true
has_device_of_found external row [] h = cc
has_device_of_found external row (r ∷ rs) h =
    elim (Bool-cases (opt_eq r.external_node_id external)) [
      | inl t ↦ let e : r ≡ row = ground arith in rw (e, eq_refl row.id)
      | inr f ↦ ground (arith, has_device_of_found external row rs)
    ]

-- The upsert of a state of a device that there is meets no constraint.
upsert_succeeds :
    (row : StateRow) (fk : Bool) (t : Tables)
    → has_device t row.device_id ≡ true
    → (t' : Tables) × (upsert_state row fk t ≡ some t')
unfolding upsert_state
upsert_succeeds row fk t h = elim (Bool-cases (any (λ r. same_key r row) t.device_states)) [
  | inl old ↦ (record t { device_states = overwrite row t.device_states }, ground arith)
  | inr new ↦ (record t { device_states = t.device_states ++ row ∷ [] }, ground arith)
]

upsert_device_state_ran :
    {F : Type 0} (engine : Engine F) (state : DeviceState F) (encoded : String) (db : Db)
    (t : Tables) (fk : Bool)
    → engine.marshal state.value ≡ some encoded
    → engine.outcome db.statements ≡ ran fk
    → upsert_state (state_row engine state encoded) fk db.tables ≡ some t
    → upsert_device_state engine state db
      ≡ (ok tt, record { tables = t; statements = db.statements + 1 })
unfolding upsert_device_state upsert_encoded
upsert_device_state_ran engine state encoded db t fk encodes runs done =
    rw (encodes, upsert_encoded)
      (rw (exec_ran engine (upsert_state (state_row engine state encoded)) db t fk runs done) refl)

-- Over SQLite, take a report of a node that the devices table binds to `row`, which maps to a state
-- whose value can be encoded, and let the two statements run on whichever connection; let the bus be
-- ready and `j` one of its subscribers. Then the report is handled with success, the row found under
-- the state's device, endpoint and capability is that of the state, and the channel of `j` holds the
-- newest of what it had and the event of that state, as many as fit.
pub apply_matter_attribute_delivers :
    {C F : Type 0} ⦃fl : Float64 F⦄ (svc : Service Db C F) (engine : Engine F) (now : Time)
    (event : AttributeEvent F) (w : World Db C F) (j : ℕ) (row : DeviceRow)
    (mapping : StateMapping F) (encoded : String) (fk_query fk_upsert : Bool)
    → svc.store ≡ new_store engine
    → by_node event.node_id w.db.tables ≡ some row
    → from_matter_attribute row.product_type event.path event.value ≡ some mapping
    → engine.marshal mapping.value ≡ some encoded
    → engine.outcome w.db.statements ≡ ran fk_query
    → engine.outcome (w.db.statements + 1) ≡ ran fk_upsert
    → IsReady w.events
    → contains j w.events.subscribers ≡ true
    → ((apply_matter_attribute svc now event w).0 ≡ ok tt)
      × (row_of
            (state_row engine (state_of now (scan_device engine row) mapping) encoded)
            (apply_matter_attribute svc now event w).1.db.tables.device_states
          ≡ some (state_row engine (state_of now (scan_device engine row) mapping) encoded))
      × (((apply_matter_attribute svc now event w).1.events.channel j).queue
          ≡ keep_last (w.events.channel j).cap (
              (w.events.channel j).queue
              ++ stamp now
                  (add_one w.events.sequence)
                  (event_of now (scan_device engine row) mapping event.initial)
                ∷ []))
apply_matter_attribute_delivers {C} {F} svc engine now event w j bound mapping encoded fk_query
      fk_upsert over is_bound mapped encodes queried upserted ready t =
    let device = scan_device engine bound in
    let state = state_of now device mapping in
    let row = state_row engine state encoded in
    let there : has_device w.db.tables bound.id ≡ true =
      has_device_of_found event.node_id bound w.db.tables.devices is_bound in
    let (t', done) = upsert_succeeds row fk_upsert w.db.tables there in
    let db : Db = record w.db { statements = w.db.statements + 1 } in
    let db' : Db = record { tables = t'; statements = db.statements + 1 } in
    let found =
      get_device_by_external_node_id_found engine event.node_id bound w.db fk_query queried
        is_bound in
    let stored =
      upsert_device_state_ran engine state encoded db t' fk_upsert encodes upserted done in
    let ran_to : apply_matter_attribute svc now event w ≡ (
      ok tt,
      record w {
        db = db';
        events = publish now (event_of now device mapping event.initial) w.events;
      },
    ) =
      apply_matter_attribute_of svc now event device mapping db db' w (rw over found) mapped
        (rw over stored) in
    rw ran_to (
      refl,
      (row_of-upsert row row fk_upsert w.db.tables t' done).0 ∙ (rw (same_key_refl row)),
      publish-queue now (event_of now device mapping event.initial) w.events j ready t,
    )
