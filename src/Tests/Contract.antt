-- ===== src/Tests/Contract.antt =====
-- Calls of a store, over SQLite and over a hub.
use manisa_app.Prelude.{true, false, ◌≡◌, refl, inr, none, some, List, [], ◌∷◌, All, Bool}
use manisa_app.Float.Ratio.{Ratio, ratio}
use manisa_app.Value.{bool}
use manisa_app.Text.Number.{format_uint, parse_uint}
use manisa_app.Domain.{Home, Device, DeviceState}
use manisa_app.Domain.Error.{ok, err, wrapped, message}
use manisa_app.Storage.Engine.{Engine}
use manisa_app.Storage.States.{new_store}
use manisa_app.Storage.Tables.{order_by, insert_sorted}
use manisa_app.Storage.Spec.{Hub, spec}
use manisa_app.Storage.Spec.Rows.{IsStored, db_of}
use manisa_app.Storage.Spec.Calls.{
  Call, creates_home, creates_device, upserts_state, lists_states, touches_client, done, states,
  perform, perform_all, IsWritable, perform_all_refines,
}
use manisa_app.Tests.Fixture.{engine}

-- a clock that stands still
abbrev pub still : Engine Ratio
still = record engine { clock = λ n. 9 }

abbrev pub lab : Home
lab = record { id = "home_1"; name = "Lab"; created_at = 7; updated_at = 7 }

abbrev pub plug : Device
plug = record {
  id = "device_1";
  home_id = "home_1";
  room_id = none;
  name = "Plug";
  product_type = "socket";
  transport = "matter_wifi";
  external_node_id = some "41";
  created_at = 8;
  updated_at = 8;
}

abbrev is_on : Bool → DeviceState Ratio
is_on b = record {
  device_id = "device_1";
  endpoint = 1;
  capability = "on_off";
  value = bool b;
  source = "matter";
  updated_at = 9;
}

-- A second device of the same node is refused, and a second state takes the place of the first.
abbrev calls : List (Call Ratio)
calls =
    creates_home lab
    ∷ creates_device plug
    ∷ creates_device (record plug { id = "device_2" })
    ∷ upserts_state (is_on true)
    ∷ upserts_state (is_on false)
    ∷ touches_client "nobody"
    ∷ lists_states "device_1"
    ∷ []

abbrev no_hub : Hub Ratio
no_hub = record { homes = []; rooms = []; devices = []; states = []; clients = []; asked = 0 }

is_on-IsStored : (b : Bool) → IsStored still (is_on b)
unfolding format_uint parse_uint
is_on-IsStored true = record {
  encoded = "true";
  read = bool true;
  written = refl;
  value = refl;
  again = refl;
  time = refl;
}
is_on-IsStored false = record {
  encoded = "false";
  read = bool false;
  written = refl;
  value = refl;
  again = refl;
  time = refl;
}

calls-IsWritable : All (IsWritable still) calls
unfolding format_uint parse_uint
calls-IsWritable = (
  (refl, refl),
  (
    (refl, refl),
    ((refl, refl), (inr (is_on-IsStored true), (inr (is_on-IsStored false), (tt, (tt, tt))))),
  ),
)

perform_all_refines_example : perform_all (new_store still) calls (db_of still no_hub) ≡ (
  (perform_all (spec still) calls no_hub).0,
  db_of still (perform_all (spec still) calls no_hub).1,
)
unfolding format_uint parse_uint
perform_all_refines_example =
    perform_all_refines still (λ n. refl) (λ n. refl) calls no_hub calls-IsWritable
      (record { homes = tt; rooms = tt; devices = tt; states = tt; clients = tt })

replies :
    (perform_all (spec still) calls no_hub).0
    ≡ done (ok tt)
      ∷ done (ok tt)
      ∷ done (err (wrapped "create device" (message "constraint failed")))
      ∷ done (ok tt)
      ∷ done (ok tt)
      ∷ done (ok tt)
      ∷ states (ok (is_on false ∷ []))
      ∷ []
unfolding perform_all perform order_by insert_sorted
replies = refl
