-- ===== src/Storage/Integrity.antt =====
-- Primary keys and unique columns hold after every statement.
use manisa_app.Prelude.{
  ◌≡◌, refl, Bool, true, false, not, ◌||◌, String, Option, none, some, List, [], ◌∷◌, arith, any,
  ◌==◌, inl, inr,
}
use manisa_app.Storage.Tables.{
  DeviceRow, StateRow, ClientRow, Tables, opt_eq, has_node, holds_if_set, same_key, overwrite,
  touch_rows,
}
use manisa_app.Storage.Rows.{Unique, Unique-concat}
use manisa_app.Storage.Statements.{
  Statement, Reach, migrated, next, homes, rooms, devices, states, clients, touches, inserted_home,
  inserted_room, inserted_device, inserted_client, upserted, touched,
}

-- `b` has the node of `a`
abbrev pub shares_node : DeviceRow → DeviceRow → Bool
shares_node a b = elim b.external_node_id [ none ↦ false | some n ↦ opt_eq a.external_node_id n ]

-- Primary keys and unique columns.
pub record IsKeyed (t : Tables) : Type 0 where
  pub homes : Unique (λ a b. a.id == b.id) t.homes
  pub rooms : Unique (λ a b. a.id == b.id) t.rooms
  pub devices : Unique (λ a b. a.id == b.id) t.devices
  pub nodes : Unique shares_node t.devices
  pub states : Unique same_key t.device_states
  pub clients : Unique (λ a b. a.id == b.id || a.token_hash == b.token_hash) t.local_clients

any-overwrite :
    (p row : StateRow) (rs : List StateRow)
    → any (λ y. same_key p y) (overwrite row rs) ≡ any (λ y. same_key p y) rs
unfolding overwrite same_key
any-overwrite p row [] = refl
any-overwrite p row (r ∷ rs) = ground (arith, any-overwrite p row rs)

Unique-overwrite :
    (row : StateRow) (rs : List StateRow) → Unique same_key rs → Unique same_key (overwrite row rs)
unfolding overwrite same_key
Unique-overwrite row [] u = tt
Unique-overwrite row (r ∷ rs) u =
    (ground (arith, any-overwrite r row rs), Unique-overwrite row rs u.1)

abbrev same_client : ClientRow → ClientRow → Bool
same_client a b = a.id == b.id || a.token_hash == b.token_hash

any-touch_rows :
    (c : ClientRow) (id at : String) (rs : List ClientRow)
    → any (λ y. same_client c y) (touch_rows id at rs) ≡ any (λ y. same_client c y) rs
unfolding touch_rows
any-touch_rows c id at [] = refl
any-touch_rows c id at (r ∷ rs) = ground (arith, any-touch_rows c id at rs)

Unique-touch_rows :
    (id at : String) (rs : List ClientRow)
    → Unique same_client rs
    → Unique same_client (touch_rows id at rs)
unfolding touch_rows
Unique-touch_rows id at [] u = tt
Unique-touch_rows id at (r ∷ rs) u =
    (ground (arith, any-touch_rows r id at rs), Unique-touch_rows id at rs u.1)

any_never : {A : Type 0} (xs : List A) → any (λ y. false) xs ≡ false
any_never [] = refl
any_never (x ∷ xs) = any_never xs

fresh_nodes :
    (t : Tables) (row : DeviceRow) (node : Option String)
    → row.external_node_id ≡ node
    → holds_if_set (λ n. not (has_node t n)) node ≡ true
    → any (λ y. shares_node y row) t.devices ≡ false
fresh_nodes t row none e h = rw e (any_never t.devices)
fresh_nodes t row (some n) e h = rw e (ground arith)

with_clients :
    (t : Tables)
    → IsKeyed t
    → (rows : List ClientRow) → Unique same_client rows
    → IsKeyed (record t { local_clients = rows })
with_clients t k rows u = record {
  homes = k.homes;
  rooms = k.rooms;
  devices = k.devices;
  nodes = k.nodes;
  states = k.states;
  clients = u;
}

pub Statement-IsKeyed : {fk : Bool} {t t' : Tables} → Statement fk t t' → IsKeyed t → IsKeyed t'
Statement-IsKeyed {fk} {t} {t'} (homes row h) k =
    let (fresh, e) = inserted_home row fk t t' h in
    rw e (record {
      homes = Unique-concat _ t.homes row k.homes fresh;
      rooms = k.rooms;
      devices = k.devices;
      nodes = k.nodes;
      states = k.states;
      clients = k.clients;
    })
Statement-IsKeyed {fk} {t} {t'} (rooms row h) k =
    let (fresh, _, e) = inserted_room row fk t t' h in
    rw e (record {
      homes = k.homes;
      rooms = Unique-concat _ t.rooms row k.rooms fresh;
      devices = k.devices;
      nodes = k.nodes;
      states = k.states;
      clients = k.clients;
    })
Statement-IsKeyed {fk} {t} {t'} (devices row h) k =
    let (fresh, node, _, e) = inserted_device row fk t t' h in
    rw e (record {
      homes = k.homes;
      rooms = k.rooms;
      devices = Unique-concat _ t.devices row k.devices fresh;
      nodes =
          Unique-concat _ t.devices row k.nodes (fresh_nodes t row row.external_node_id refl node);
      states = k.states;
      clients = k.clients;
    })
Statement-IsKeyed {fk} {t} {t'} (states row h) k = elim (upserted row fk t t' h) [
  | inl e ↦ rw e (with_states _ (Unique-overwrite row t.device_states k.states))
  | inr (fresh, _, e) ↦ rw e (with_states _ (Unique-concat _ t.device_states row k.states fresh))
]
  where
    with_states :
        (rows : List StateRow) → Unique same_key rows → IsKeyed (record t { device_states = rows })
    with_states rows u = record {
      homes = k.homes;
      rooms = k.rooms;
      devices = k.devices;
      nodes = k.nodes;
      states = u;
      clients = k.clients;
    }
Statement-IsKeyed {fk} {t} {t'} (clients row h) k =
    let (fresh, e) = inserted_client row fk t t' h in
    rw e (with_clients t k _ (Unique-concat _ t.local_clients row k.clients fresh))
Statement-IsKeyed {fk} {t} {t'} (touches id at h) k =
    rw (touched id at fk t t' h)
      (with_clients t k _ (Unique-touch_rows id at t.local_clients k.clients))

-- Whatever statements have run since the schema was made, with or without foreign keys, the primary
-- keys, the Matter nodes of devices and the token hashes of clients are unique.
pub Reach-IsKeyed : {fk : Bool} {t : Tables} → Reach fk t → IsKeyed t
Reach-IsKeyed migrated = record {
  homes = tt;
  rooms = tt;
  devices = tt;
  nodes = tt;
  states = tt;
  clients = tt;
}
Reach-IsKeyed (next r s) = Statement-IsKeyed s (Reach-IsKeyed r)
