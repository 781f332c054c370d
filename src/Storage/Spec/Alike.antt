-- ===== src/Storage/Spec/Alike.antt =====
-- The store over SQLite and the abstract one answer alike.
use manisa_app.Prelude.{ℕ, ◌≡◌, ap, ◌⊎◌, true, none}
use manisa_app.Domain.{DeviceState}
use manisa_app.Domain.Error.{Exec}
use manisa_app.Application.Simulates.{Simulates}
use manisa_app.Application.Simulates.Stores.{Alike}
use manisa_app.Storage.Engine.{Engine, Db, ran}
use manisa_app.Storage.States.{new_store}
use manisa_app.Storage.Spec.{Hub, spec}
use manisa_app.Storage.Spec.Rows.{IsKept, IsStored, IsReadable, db_of, Implements}
use manisa_app.Storage.Spec.Changes.{
  create_home-Implements, create_room-Implements, create_device-Implements,
  create_local_client-Implements,
}
use manisa_app.Storage.Spec.Updates.{upsert_device_state-Implements, touch_local_client-Implements}
use manisa_app.Storage.Spec.Queries.{
  list_homes-Implements, list_rooms-Implements, list_devices-Implements,
  list_device_states-Implements, get_device-Implements, get_device_by_external_node_id-Implements,
  get_local_client_by_token_hash-Implements,
}

module _ {F : Type 0} (engine : Engine F) where
  -- the database whose tables stand for the hub
  abbrev pub Represents : Db → Hub F → Type 0
  Represents db hub = (db ≡ db_of engine hub) × IsReadable engine hub

  -- has no JSON text, or one that is read as a value of the same text
  abbrev pub IsSettled : DeviceState F → Type 0
  IsSettled s = (engine.marshal s.value ≡ none) ⊎ IsStored engine s

  Implements-Simulates :
      {A : Type 0} (m : Exec Db A) (n : Exec (Hub F) A)
      → Implements engine m n
      → Simulates Represents m n
  Implements-Simulates m n i = record {
    at = λ db hub h.
        let (same, readable) = i hub h.1 in
        rw h.0 (ap (λ p. p.0) same, (ap (λ p. p.1) same, readable));
  }

  pub new_store-Alike :
      ((n : ℕ) → engine.outcome n ≡ ran true)
      → ((n : ℕ) → IsKept engine (engine.clock n))
      → Alike (new_store engine) (spec engine) Represents (IsKept engine) IsSettled
  new_store-Alike runs kept = record {
    create_home = λ h c u. Implements-Simulates _ _ (create_home-Implements engine runs h (c, u));
    list_homes = Implements-Simulates _ _ (list_homes-Implements engine runs);
    create_room = λ r c u. Implements-Simulates _ _ (create_room-Implements engine runs r (c, u));
    list_rooms = λ id. Implements-Simulates _ _ (list_rooms-Implements engine runs id);
    create_device =
        λ d c u. Implements-Simulates _ _ (create_device-Implements engine runs d (c, u));
    get_device = λ id. Implements-Simulates _ _ (get_device-Implements engine runs id);
    get_device_by_external_node_id = λ node.
        Implements-Simulates _ _ (get_device_by_external_node_id-Implements engine runs node);
    list_devices = λ id. Implements-Simulates _ _ (list_devices-Implements engine runs id);
    upsert_device_state =
        λ s k. Implements-Simulates _ _ (upsert_device_state-Implements engine runs s k);
    list_device_states =
        λ id. Implements-Simulates _ _ (list_device_states-Implements engine runs id);
    create_local_client =
        λ x c u. Implements-Simulates _ _ (create_local_client-Implements engine runs x (c, u));
    get_local_client_by_token_hash = λ hash.
        Implements-Simulates _ _ (get_local_client_by_token_hash-Implements engine runs hash);
    touch_local_client =
        λ id. Implements-Simulates _ _ (touch_local_client-Implements engine runs id kept);
  }
