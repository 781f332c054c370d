-- ===== src/Storage/Lookups.antt =====
-- Devices are found by their id and by their Matter node.
use manisa_app.Prelude.{
  ◌+◌, ◌≡◌, ◌≢◌, refl, ap, ◌∙◌, Bool, true, false, not, String, Option, none, some, List, [], ◌∷◌,
  arith, any, ◌==◌, eq_iff, eq_refl, if◌then◌else◌,
}
use manisa_app.Domain.{Device}
use manisa_app.Domain.Error.{Result, ok}
use manisa_app.Storage.Tables.{
  DeviceRow, Tables, find, opt_eq, has_device, has_node, holds_if_set, insert_device,
}
use manisa_app.Storage.Engine.{Engine, Db, ran, exec_ok, query_ran}
use manisa_app.Storage.Sqlite.{
  device_row, scan_device, create_device, get_device, get_device_by_external_node_id,
}
use manisa_app.Storage.Rows.{find-concat, find_of_any-false}

abbrev pub by_id : String → Tables → Option DeviceRow
by_id id t = find (λ r. r.id == id) t.devices

abbrev pub by_node : String → Tables → Option DeviceRow
by_node node t = find (λ r. opt_eq r.external_node_id node) t.devices

found_of_any : (p : DeviceRow → Bool) (rs : List DeviceRow) → any p rs ≡ true → find p rs ≢ none
found_of_any p [] h = cc
found_of_any p (r ∷ rs) h = ground (arith, found_of_any p rs)

fresh_id :
    (id id' : String) (t : Tables)
    → (id == id') ≡ true
    → has_device t id ≡ false
    → by_id id' t ≡ none
fresh_id id id' t e h =
    let same : id ≡ id' = (eq_iff id id').0 e in
    rw (← same) (find_of_any-false (λ r. r.id == id) t.devices h)

fresh_node :
    (o : Option String) (node : String) (t : Tables)
    → opt_eq o node ≡ true
    → holds_if_set (λ n. not (has_node t n)) o ≡ true
    → by_node node t ≡ none
fresh_node none node t h k = cc
fresh_node (some n) node t h k =
    let e : n ≡ node = (eq_iff n node).0 h in
    rw (← e) (find_of_any-false (λ r. opt_eq r.external_node_id n) t.devices (ground arith))

-- After an insert into devices that meets no constraint, the row is found under its id and its node,
-- and what is found under any other is as before.
insert_device-found :
    (row : DeviceRow) (fk : Bool) (t t' : Tables) (id node : String)
    → insert_device row fk t ≡ some t'
    → (by_id id t' ≡ (if row.id == id then some row else by_id id t))
      × (by_node node t' ≡ (if opt_eq row.external_node_id node then some row else by_node node t))
unfolding insert_device
insert_device-found row fk t t' id node h = ground (
  arith,
  find-concat (λ r. r.id == id) t.devices row,
  find-concat (λ r. opt_eq r.external_node_id node) t.devices row,
  fresh_id row.id id t,
  fresh_node row.external_node_id node t,
  find_of_any-false (λ r. r.id == id) t.devices,
  find_of_any-false (λ r. opt_eq r.external_node_id node) t.devices,
  found_of_any (λ r. r.id == id) t.devices,
  found_of_any (λ r. opt_eq r.external_node_id node) t.devices,
)

module _ {F : Type 0} (engine : Engine F) where
  pub get_device_found :
      (id : String) (row : DeviceRow) (db : Db) (fk : Bool)
      → engine.outcome db.statements ≡ ran fk
      → by_id id db.tables ≡ some row
      → (get_device engine id db).0 ≡ ok (scan_device engine row)
  unfolding get_device
  get_device_found id row db fk runs h = rw (query_ran engine (by_id id) db fk runs, h) refl

  pub get_device_by_external_node_id_found :
      (node : String) (row : DeviceRow) (db : Db) (fk : Bool)
      → engine.outcome db.statements ≡ ran fk
      → by_node node db.tables ≡ some row
      → get_device_by_external_node_id engine node db
        ≡ (ok (scan_device engine row), record db { statements = db.statements + 1 })
  unfolding get_device_by_external_node_id
  get_device_by_external_node_id_found node row db fk runs h =
      rw (query_ran engine (by_node node) db fk runs, h) refl

  scan-device_row :
      (d : Device)
      → engine.parse_time (engine.format_time d.created_at) ≡ d.created_at
      → engine.parse_time (engine.format_time d.updated_at) ≡ d.updated_at
      → scan_device engine (device_row engine d) ≡ d
  scan-device_row d c u = rw (c, u) refl

  created :
      (d : Device) (db db' : Db)
      → create_device engine d db ≡ (ok tt, db')
      → (fk : Bool) × (insert_device (device_row engine d) fk db.tables ≡ some db'.tables)
  unfolding create_device
  created d db db' h =
      let (fk, _, done, _) =
        exec_ok engine (insert_device (device_row engine d)) db db' (ground arith) in
      (fk, done)

  -- A device with a node that was created, whose times survive being written as text, is what the next
  -- statement finds under its id and under its node, if that statement runs. Under any other id, the
  -- row found is the one found before.
  pub get_device-create_device :
      (d : Device) (external other : String) (db db' : Db) (fk : Bool)
      → create_device engine d db ≡ (ok tt, db')
      → engine.outcome db'.statements ≡ ran fk
      → d.external_node_id ≡ some external
      → engine.parse_time (engine.format_time d.created_at) ≡ d.created_at
      → engine.parse_time (engine.format_time d.updated_at) ≡ d.updated_at
      → d.id ≢ other
      → ((get_device engine d.id db').0 ≡ ok d)
        × ((get_device_by_external_node_id engine external db').0 ≡ ok d)
        × (by_id other db'.tables ≡ by_id other db.tables)
  get_device-create_device d external other db db' fk h runs bound c u ne =
      let row = device_row engine d in
      let (k, done) = created d db db' h in
      let at_id = insert_device-found row k db.tables db'.tables d.id external done in
      let at_other = insert_device-found row k db.tables db'.tables other external done in
      let by_its_id : by_id d.id db'.tables ≡ some row = at_id.0 ∙ (rw (eq_refl d.id)) in
      let by_its_node : by_node external db'.tables ≡ some row =
        at_id.1 ∙ (rw (bound, eq_refl external)) in
      let same = scan-device_row d c u in
      (
        get_device_found d.id row db' fk runs by_its_id ∙ ap ok same,
        ap (λ (p : Result Device × Db). p.0)
              (get_device_by_external_node_id_found external row db' fk runs by_its_node)
            ∙ ap ok same,
        ground (arith, at_other.0, eq_iff d.id other),
      )
