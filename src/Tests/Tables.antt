-- ===== src/Tests/Tables.antt =====
-- The store.
use manisa_app.Text.Number.{parse_uint, format_uint}
use manisa_app.Prelude.{◌≡◌, refl, Bool, true, false, none, some, [], ◌∷◌}
use manisa_app.Domain.{DeviceState}
use manisa_app.Storage.Tables.{
  DeviceRow, insert_device, upsert_state, overwrite, same_key, order_by, insert_sorted,
}
use manisa_app.Storage.Engine.{Db, exec, query}
use manisa_app.Storage.Integrity.{IsKeyed}
use manisa_app.Storage.States.{
  upsert_encoded, upsert_device_state, decode_row, decode_rows, list_device_states,
}
use manisa_app.Storage.Refine.{Survives, Lists, view}
use manisa_app.Storage.Refine.Runs.{put_all, list_device_states_refines}
use manisa_app.Float.Ratio.{Ratio}
use manisa_app.Value.{bool}
use manisa_app.Tests.Fixture.{engine, dimmer, tables}

-- a device of a home that was never created
abbrev stray : DeviceRow
stray = record dimmer { id = "device_2"; home_id = "home_9"; external_node_id = some "43" }

stray_refused : insert_device stray true tables ≡ none
unfolding insert_device
stray_refused = refl

abbrev db : Db
db = record { tables = tables; statements = 0 }

abbrev is_on : Bool → DeviceState Ratio
is_on b = record {
  device_id = "device_1";
  endpoint = 1;
  capability = "on_off";
  value = bool b;
  source = "matter";
  updated_at = 9;
}

is_on-Survives : (b : Bool) → Survives engine (is_on b)
unfolding parse_uint format_uint
is_on-Survives true = record { encoded = "true"; written = refl; value = refl; time = refl }
is_on-Survives false = record { encoded = "false"; written = refl; value = refl; time = refl }

tables-IsKeyed : IsKeyed tables
tables-IsKeyed = record {
  homes = (refl, tt);
  rooms = tt;
  devices = (refl, tt);
  nodes = (refl, tt);
  states = tt;
  clients = tt;
}

abbrev once : Db
once = (upsert_device_state engine (is_on true) db).1

abbrev twice : Db
twice = (upsert_device_state engine (is_on false) once).1

-- The second write overwrites the first.
list_device_states_refines_example :
    Lists engine
      (put_all (is_on true ∷ is_on false ∷ []) (view engine tables))
      "device_1"
      (is_on false ∷ [])
unfolding upsert_device_state upsert_encoded exec upsert_state overwrite same_key list_device_states
    query order_by insert_sorted decode_rows decode_row parse_uint format_uint
list_device_states_refines_example =
    list_device_states_refines engine (is_on true ∷ is_on false ∷ []) "device_1" db twice
      (list_device_states engine "device_1" twice).1 true (is_on false ∷ []) tables-IsKeyed
      (is_on-Survives true, (once, refl, (is_on-Survives false, (twice, refl, refl)))) refl refl
