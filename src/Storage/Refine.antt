-- ===== src/Storage/Refine.antt =====
-- The table of device states, as a finite map from a device, an endpoint and a capability to a state.
pub mod Listed
pub mod Runs
use mathlib.Core.Path.{fun_ext}
use manisa_app.Prelude.{
  ℕ, ◌+◌, ◌≤◌, ◌≡◌, refl, sym, ap, ◌∙◌, inl, inr, Bool, true, false, ◌&&◌, ◌||◌, String, Option,
  none, some, List, [], ◌∷◌, ◌==◌, eq_iff, nat_eq, nat_eq_iff, ltb, arith, any, All, Any,
  Bool-cases, Option-cases, if◌then◌else◌,
}
use manisa_app.Domain.{DeviceState}
use manisa_app.Domain.Error.{ok}
use manisa_app.Application.World.{Result-cases}
use manisa_app.Storage.Tables.{
  StateRow, Tables, find, select, order_by, same_key, text_le, upsert_state,
}
use manisa_app.Storage.Engine.{Engine, Db, ran, exec_ok, query_ran}
use manisa_app.Storage.States.{
  state_row, state_le, upsert_encoded, upsert_device_state, decode_row, decode_rows,
  list_device_states,
}
use manisa_app.Storage.Rows.{Unique}
use manisa_app.Storage.Upserts.{row_of, row_of-upsert, same_key_refl, same_key_iff}
use manisa_app.Storage.Listing.{
  Among, Ascending, All-Among, find-Among, select-Among, order_by-Among, order_by-All, select-All,
  Unique-select, Unique-order_by, Ascending-order_by, find-Unique,
}

-- What the table means: the state of each device, endpoint and capability.
abbrev pub States : Type 0 → Type 0
States F = String → ℕ → String → Option (DeviceState F)

-- a write to the map
abbrev pub put : {F : Type 0} → DeviceState F → States F → States F
put s m device endpoint capability =
    if s.device_id == device && nat_eq s.endpoint endpoint && s.capability == capability
    then some s
    else m device endpoint capability

-- a row with this key
abbrev pub key : String → ℕ → String → StateRow
key device endpoint capability = record {
  device_id = device;
  endpoint = endpoint;
  capability = capability;
  value_json = "";
  source = "";
  updated_at = "";
}

module _ {F : Type 0} (engine : Engine F) where
  abbrev pub read : Option StateRow → Option (DeviceState F)
  read none = none
  read (some row) = decode_row engine row

  -- the map that a table stands for
  abbrev pub view : Tables → States F
  view t device endpoint capability = read (row_of (key device endpoint capability) t.device_states)

  -- what reads back as it was written
  pub record Survives (s : DeviceState F) : Type 0 where
    pub encoded : String
    pub written : engine.marshal s.value ≡ some encoded
    pub value : engine.unmarshal encoded ≡ some s.value
    pub time : engine.parse_time (engine.format_time s.updated_at) ≡ s.updated_at

  decode-state_row :
      (s : DeviceState F) (k : Survives s)
      → decode_row engine (state_row engine s k.encoded) ≡ some s
  unfolding decode_row
  decode-state_row s k = rw (decode_row, k.value, k.time) refl

  read-put :
      (s : DeviceState F) (k : Survives s) (b : Bool) (o : Option StateRow)
      → read (if b then some (state_row engine s k.encoded) else o) ≡ (if b then some s else read o)
  read-put s k true o = decode-state_row s k
  read-put s k false o = refl

  -- the statement of a write that succeeded
  pub upserted_row :
      (s : DeviceState F) (db db' : Db) (k : Survives s)
      → upsert_device_state engine s db ≡ (ok tt, db')
      → (fk : Bool) × (upsert_state (state_row engine s k.encoded) fk db.tables ≡ some db'.tables)
  unfolding upsert_device_state upsert_encoded
  upserted_row s db db' k h =
      let sent : upsert_encoded engine s (some k.encoded) db ≡ (ok tt, db') =
        ap (λ o. upsert_encoded engine s o db) (sym k.written) ∙ h in
      let (fk, _, done, _) =
        exec_ok engine (upsert_state (state_row engine s k.encoded)) db db' (ground arith) in
      (fk, done)

  -- A write of a state to the store that succeeds is a write to the map, if the state's value and time
  -- read back as they were written.
  pub view-upsert_device_state :
      (s : DeviceState F) (db db' : Db)
      → Survives s
      → upsert_device_state engine s db ≡ (ok tt, db')
      → view db'.tables ≡ put s (view db.tables)
  unfolding same_key
  view-upsert_device_state s db db' k h =
      let row = state_row engine s k.encoded in
      let (fk, done) = upserted_row s db db' k h in
      fun_ext λ device. fun_ext λ endpoint. fun_ext λ capability.
        let k' = key device endpoint capability in
        ap read (row_of-upsert row k' fk db.tables db'.tables done).0
        ∙ read-put s k (same_key row k') _

  -- What listing a device's states means for the map: they are the map's states of that device, all
  -- of them, each once, with ascending endpoints.
  pub record Lists (m : States F) (device : String) (states : List (DeviceState F)) : Type 0 where
    pub sound :
        All (λ s. (s.device_id ≡ device) × (m device s.endpoint s.capability ≡ some s)) states
    pub complete :
        (endpoint : ℕ) (capability : String) (s : DeviceState F)
        → m device endpoint capability ≡ some s
        → Among s states
    pub once : Unique (λ a b. nat_eq a.endpoint b.endpoint && a.capability == b.capability) states
    pub ascending : Ascending (λ s. s.endpoint) states
