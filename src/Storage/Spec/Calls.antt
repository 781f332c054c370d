-- ===== src/Storage/Spec/Calls.antt =====
-- Sequences of calls of a store, and the refinement: the store over SQLite answers each as a Hub does.
use manisa_app.Prelude.{ℕ, ◌≡◌, refl, ap, ◌⊎◌, String, true, none, List, [], ◌∷◌, All}
use manisa_app.Domain.{Home, Room, Device, DeviceState, LocalClient}
use manisa_app.Domain.Error.{Exec, Result}
use manisa_app.Domain.Store.{Store}
use manisa_app.Storage.Engine.{Engine, Db, ran}
use manisa_app.Storage.States.{new_store}
use manisa_app.Storage.Spec.{Hub, spec}
use manisa_app.Storage.Spec.Rows.{IsKept, IsStored, IsReadable, db_of, Implements}
use manisa_app.Storage.Spec.Changes.{
  create_home-Implements, create_room-Implements, create_device-Implements,
  create_local_client-Implements,
}
use manisa_app.Storage.Spec.Updates.{upsert_device_state-Implements, touch_local_client-Implements}
use manisa_app.Storage.Spec.Queries.{
  list_homes-Implements, list_rooms-Implements, list_devices-Implements,
  list_device_states-Implements, get_device-Implements, get_device_by_external_node_id-Implements,
  get_local_client_by_token_hash-Implements,
}

pub data Call (F : Type 0) : Type 0 where
  creates_home : Home → Call F
  lists_homes : Call F
  creates_room : Room → Call F
  lists_rooms : String → Call F
  creates_device : Device → Call F
  gets_device gets_device_by_node lists_devices : String → Call F
  upserts_state : DeviceState F → Call F
  lists_states : String → Call F
  creates_client : LocalClient → Call F
  gets_client touches_client : String → Call F

pub data Reply (F : Type 0) : Type 0 where
  done : Result (Unit {0}) → Reply F
  homes : Result (List Home) → Reply F
  rooms : Result (List Room) → Reply F
  device : Result Device → Reply F
  devices : Result (List Device) → Reply F
  states : Result (List (DeviceState F)) → Reply F
  client : Result LocalClient → Reply F

module _ {S F : Type 0} where
  abbrev pub reply : {A : Type 0} → (Result A → Reply F) → Exec S A → S → Reply F × S
  reply answer m s = let (r, s') = m s in (answer r, s')

  unfoldable pub perform : Store S F → Call F → S → Reply F × S
  perform store (creates_home home) = reply done (store.create_home home)
  perform store lists_homes = reply homes store.list_homes
  perform store (creates_room room) = reply done (store.create_room room)
  perform store (lists_rooms home_id) = reply rooms (store.list_rooms home_id)
  perform store (creates_device d) = reply done (store.create_device d)
  perform store (gets_device id) = reply device (store.get_device id)
  perform store (gets_device_by_node node) =
      reply device (store.get_device_by_external_node_id node)
  perform store (lists_devices home_id) = reply devices (store.list_devices home_id)
  perform store (upserts_state s) = reply done (store.upsert_device_state s)
  perform store (lists_states id) = reply states (store.list_device_states id)
  perform store (creates_client c) = reply done (store.create_local_client c)
  perform store (gets_client hash) = reply client (store.get_local_client_by_token_hash hash)
  perform store (touches_client id) = reply done (store.touch_local_client id)

  unfoldable pub perform_all : Store S F → List (Call F) → S → List (Reply F) × S
  perform_all store [] s = ([], s)
  perform_all store (c ∷ calls) s =
      let (r, s') = perform store c s in let (rs, s'') = perform_all store calls s' in (r ∷ rs, s'')

module _ {F : Type 0} (engine : Engine F) where
  -- What is handed over is read back as it was written, or has no text and is refused.
  abbrev pub IsWritable : Call F → Type 0
  IsWritable (creates_home h) = IsKept engine h.created_at × IsKept engine h.updated_at
  IsWritable (creates_room r) = IsKept engine r.created_at × IsKept engine r.updated_at
  IsWritable (creates_device d) = IsKept engine d.created_at × IsKept engine d.updated_at
  IsWritable (upserts_state s) = (engine.marshal s.value ≡ none) ⊎ IsStored engine s
  IsWritable (creates_client c) = IsKept engine c.created_at × IsKept engine c.last_used
  IsWritable _ = Unit

  module _ (runs : (n : ℕ) → engine.outcome n ≡ ran true)
      (clock_kept : (n : ℕ) → IsKept engine (engine.clock n)) where
    abbrev Agrees : Call F → Hub F → Type 0
    Agrees c hub =
        (perform (new_store engine) c (db_of engine hub)
          ≡ ((perform (spec engine) c hub).0, db_of engine (perform (spec engine) c hub).1))
        × IsReadable engine (perform (spec engine) c hub).1

    abbrev sqlite : Store Db F
    sqlite = new_store engine

    abbrev abstract : Store (Hub F) F
    abstract = spec engine

    replied :
        {A : Type 0} (answer : Result A → Reply F) (m : Exec Db A) (n : Exec (Hub F) A)
        → Implements engine m n
        → (hub : Hub F) → IsReadable engine hub
        → (reply answer m (db_of engine hub)
            ≡ ((reply answer n hub).0, db_of engine (reply answer n hub).1))
          × IsReadable engine (reply answer n hub).1
    replied {A} answer m n i hub r =
        let (same, readable) = i hub r in
        (ap (λ (p : Result A × Db). (answer p.0, p.1)) same, readable)

    perform-Agrees :
        (c : Call F) (hub : Hub F) → IsWritable c → IsReadable engine hub → Agrees c hub
    unfolding perform
    perform-Agrees (creates_home h) hub w r =
        replied done (sqlite.create_home h) (abstract.create_home h)
          (create_home-Implements engine runs h w) hub r
    perform-Agrees lists_homes hub w r =
        replied homes (sqlite.list_homes) (abstract.list_homes) (list_homes-Implements engine runs)
          hub r
    perform-Agrees (creates_room x) hub w r =
        replied done (sqlite.create_room x) (abstract.create_room x)
          (create_room-Implements engine runs x w) hub r
    perform-Agrees (lists_rooms id) hub w r =
        replied rooms (sqlite.list_rooms id) (abstract.list_rooms id)
          (list_rooms-Implements engine runs id) hub r
    perform-Agrees (creates_device d) hub w r =
        replied done (sqlite.create_device d) (abstract.create_device d)
          (create_device-Implements engine runs d w) hub r
    perform-Agrees (gets_device id) hub w r =
        replied device (sqlite.get_device id) (abstract.get_device id)
          (get_device-Implements engine runs id) hub r
    perform-Agrees (gets_device_by_node node) hub w r =
        replied device (sqlite.get_device_by_external_node_id node)
          (abstract.get_device_by_external_node_id node)
          (get_device_by_external_node_id-Implements engine runs node) hub r
    perform-Agrees (lists_devices id) hub w r =
        replied devices (sqlite.list_devices id) (abstract.list_devices id)
          (list_devices-Implements engine runs id) hub r
    perform-Agrees (upserts_state s) hub w r =
        replied done (sqlite.upsert_device_state s) (abstract.upsert_device_state s)
          (upsert_device_state-Implements engine runs s w) hub r
    perform-Agrees (lists_states id) hub w r =
        replied states (sqlite.list_device_states id) (abstract.list_device_states id)
          (list_device_states-Implements engine runs id) hub r
    perform-Agrees (creates_client c) hub w r =
        replied done (sqlite.create_local_client c) (abstract.create_local_client c)
          (create_local_client-Implements engine runs c w) hub r
    perform-Agrees (gets_client hash) hub w r =
        replied client (sqlite.get_local_client_by_token_hash hash)
          (abstract.get_local_client_by_token_hash hash)
          (get_local_client_by_token_hash-Implements engine runs hash) hub r
    perform-Agrees (touches_client id) hub w r =
        replied done (sqlite.touch_local_client id) (abstract.touch_local_client id)
          (touch_local_client-Implements engine runs id clock_kept) hub r

    -- Where every statement runs, with foreign keys, and what the store writes is read back as it was
    -- (the times of the database's clock and of the calls, what the hub of the start holds, and
    -- states, each value up to its type, unless it has no JSON text): the store over SQLite answers
    -- any sequence of calls as the abstract hub does that its tables stand for, errors included, and
    -- its tables stand for that hub at the end too.
    pub perform_all_refines :
        (calls : List (Call F)) (hub : Hub F)
        → All IsWritable calls
        → IsReadable engine hub
        → perform_all (new_store engine) calls (db_of engine hub) ≡ (
          (perform_all (spec engine) calls hub).0,
          db_of engine (perform_all (spec engine) calls hub).1,
        )
    unfolding perform_all
    perform_all_refines [] hub ws r = refl
    perform_all_refines (c ∷ calls) hub (w, ws) r =
        let (same, readable) = perform-Agrees c hub w r in
        rw same (
          ap (λ (p : List (Reply F) × Db). ((perform (spec engine) c hub).0 ∷ p.0, p.1))
            (perform_all_refines calls (perform (spec engine) c hub).1 ws readable))
