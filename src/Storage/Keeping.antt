-- ===== src/Storage/Keeping.antt =====
-- What every statement keeps, every method of the store over SQLite keeps.
use manisa_app.Prelude.{ℕ, ◌+◌, ◌≡◌, refl, String, Bool, Option, none, some, inl, inr, Option-cases}
use manisa_app.Domain.{DeviceState}
use manisa_app.Application.Keeps.{Keeps, Keeps-lift, Keeps-pure, Keeps-bind, Keeps-wrapping}
use manisa_app.Application.Keeps.Stores.{Preserves}
use manisa_app.Storage.Tables.{DeviceRow, ClientRow, Tables, touch_client}
use manisa_app.Storage.Engine.{
  Engine, Outcome, failed, ran, Db, settle_statement, exec, answer, query,
}
use manisa_app.Storage.Statements.{Statement, homes, rooms, devices, states, clients, touches}
use manisa_app.Storage.Sqlite.{
  create_home, list_homes, create_room, list_rooms, create_device, found, get_device,
  get_device_by_external_node_id, list_devices,
}
use manisa_app.Storage.States.{
  upsert_encoded, upsert_device_state, list_device_states, create_local_client, found_client,
  get_local_client_by_token_hash, touch_local_client, new_store,
}

-- `P` is kept by every statement that the store executes and the engine runs.
module _ {F : Type 0} (engine : Engine F) (P : Tables → Type 0)
    (statement_keeps : (n : ℕ) (fk : Bool) (t t' : Tables)
      → engine.outcome n ≡ ran fk
      → Statement fk t t'
      → P t
      → P t') where
  abbrev Holds : Db → Type 0
  Holds db = P db.tables

  settled :
      (o : Outcome) (s : Bool → Tables → Option Tables) (n : ℕ) (t : Tables)
      → engine.outcome n ≡ o
      → ((fk : Bool) (t t' : Tables) → s fk t ≡ some t' → Statement fk t t')
      → P t
      → P (settle_statement engine o s t (n + 1)).1.tables
  settled (failed text) s n t e is h = h
  settled (ran fk) s n t e is h = elim (Option-cases (s fk t)) [
    | inl refused ↦ rw (settle_statement, refused) h
    | inr (t', done) ↦ rw (settle_statement, done) (statement_keeps n fk t t' e (is fk t t' done) h)
  ]

  exec-Keeps :
      (s : Bool → Tables → Option Tables)
      → ((fk : Bool) (t t' : Tables) → s fk t ≡ some t' → Statement fk t t')
      → Keeps Holds (exec engine s)
  unfolding exec
  exec-Keeps s is = record {
    at = λ db h. settled (engine.outcome db.statements) s db.statements db.tables refl is h;
  }

  answered :
      {A : Type 0} (o : Outcome) (select : Tables → A) (n : ℕ) (t : Tables)
      → P t
      → P (answer engine o select t n).1.tables
  answered (failed text) select n t h = h
  answered (ran fk) select n t h = h

  query-Keeps : {A : Type 0} (select : Tables → A) → Keeps Holds (query engine select)
  unfolding query
  query-Keeps select = record {
    at = λ db h. answered (engine.outcome db.statements) select (db.statements + 1) db.tables h;
  }

  found-Keeps : (o : Option DeviceRow) → Keeps Holds (found engine o)
  found-Keeps none = Keeps-lift _
  found-Keeps (some row) = Keeps-pure _

  found_client-Keeps : (o : Option ClientRow) → Keeps Holds (found_client engine o)
  found_client-Keeps none = Keeps-lift _
  found_client-Keeps (some row) = Keeps-pure _

  upsert_encoded-Keeps :
      (state : DeviceState F) (o : Option String) → Keeps Holds (upsert_encoded engine state o)
  unfolding upsert_encoded
  upsert_encoded-Keeps state none = Keeps-lift _
  upsert_encoded-Keeps state (some encoded) =
      Keeps-wrapping _ _ (exec-Keeps _ (λ fk t t' h. states _ h))

  touch_local_client-Keeps : (id : String) → Keeps Holds (touch_local_client engine id)
  unfolding touch_local_client
  touch_local_client-Keeps id = record {
    at = λ db h.
        let at = engine.format_time (engine.clock db.statements) in
        (exec-Keeps (touch_client id at) (λ fk t t' h. touches id at h)).at db h;
  }

  pub new_store-Preserves : Preserves (new_store engine) Holds
  unfolding create_home list_homes create_room list_rooms create_device get_device
      get_device_by_external_node_id list_devices upsert_device_state list_device_states
      create_local_client get_local_client_by_token_hash
  new_store-Preserves = record {
    create_home = λ home. Keeps-wrapping _ _ (exec-Keeps _ (λ fk t t' h. homes _ h));
    list_homes = Keeps-wrapping _ _ (query-Keeps _);
    create_room = λ room. Keeps-wrapping _ _ (exec-Keeps _ (λ fk t t' h. rooms _ h));
    list_rooms = λ home. Keeps-wrapping _ _ (query-Keeps _);
    create_device = λ device. Keeps-wrapping _ _ (exec-Keeps _ (λ fk t t' h. devices _ h));
    get_device = λ id. Keeps-bind _ _ (Keeps-wrapping _ _ (query-Keeps _)) found-Keeps;
    get_device_by_external_node_id =
        λ node. Keeps-bind _ _ (Keeps-wrapping _ _ (query-Keeps _)) found-Keeps;
    list_devices = λ home. Keeps-wrapping _ _ (query-Keeps _);
    upsert_device_state = λ state. upsert_encoded-Keeps state (engine.marshal state.value);
    list_device_states =
        λ id. Keeps-bind _ _ (Keeps-wrapping _ _ (query-Keeps _)) (λ rows. Keeps-lift _);
    create_local_client = λ client. Keeps-wrapping _ _ (exec-Keeps _ (λ fk t t' h. clients _ h));
    get_local_client_by_token_hash =
        λ hash. Keeps-bind _ _ (Keeps-wrapping _ _ (query-Keeps _)) found_client-Keeps;
    touch_local_client = touch_local_client-Keeps;
  }
