-- ===== src/Application/Shared.antt =====
-- A store that other goroutines use too, as one of them sees it. Each method of Store runs one statement
-- at most, so between two of its calls to the store anything can have happened to it, and within a call
-- nothing.
use manisa_app.Prelude.{List, [], ◌∷◌, All}
use manisa_app.Domain.Error.{Exec}
use manisa_app.Domain.Store.{Store}
use manisa_app.Application.Keeps.{Keeps}
use manisa_app.Application.Keeps.Stores.{Preserves}

-- The store's state, and what the others do to it before each of the calls that come.
pub record Shared (S : Type 0) : Type 0 where
  pub state : S
  pub others : List (S → S)

module _ {S : Type 0} where
  abbrev pub shift : S → List (S → S) → Shared S
  shift state [] = record { state = state; others = [] }
  shift state (step ∷ later) = record { state = step state; others = later }

  abbrev pub turn : Shared S → Shared S
  turn s = shift s.state s.others

  -- A call, when the others have had their turn.
  abbrev pub call_shared : {A : Type 0} → Exec S A → Exec (Shared S) A
  call_shared m s =
      let s' = turn s in
      let (r, state) = m s'.state in (r, record { state = state; others = s'.others })

  abbrev pub share : {F : Type 0} → Store S F → Store (Shared S) F
  share store = record {
    create_home = λ home. call_shared (store.create_home home);
    list_homes = call_shared store.list_homes;
    create_room = λ room. call_shared (store.create_room room);
    list_rooms = λ home_id. call_shared (store.list_rooms home_id);
    create_device = λ device. call_shared (store.create_device device);
    get_device = λ id. call_shared (store.get_device id);
    get_device_by_external_node_id =
        λ node. call_shared (store.get_device_by_external_node_id node);
    list_devices = λ home_id. call_shared (store.list_devices home_id);
    upsert_device_state = λ state. call_shared (store.upsert_device_state state);
    list_device_states = λ id. call_shared (store.list_device_states id);
    create_local_client = λ client. call_shared (store.create_local_client client);
    get_local_client_by_token_hash =
        λ hash. call_shared (store.get_local_client_by_token_hash hash);
    touch_local_client = λ id. call_shared (store.touch_local_client id);
  }

  -- `P` of the state, and the others keep it.
  pub record IsShared (P : S → Type 0) (s : Shared S) : Type 0 where
    pub state : P s.state
    pub others : All (λ (f : S → S). (x : S) → P x → P (f x)) s.others

  shift-IsShared :
      {P : S → Type 0} (state : S) (others : List (S → S))
      → P state
      → All (λ (f : S → S). (x : S) → P x → P (f x)) others
      → IsShared P (shift state others)
  shift-IsShared state [] p k = record { state = p; others = tt }
  shift-IsShared state (step ∷ later) p (k, ks) = record { state = k state p; others = ks }

  pub turn-IsShared : {P : S → Type 0} (s : Shared S) → IsShared P s → IsShared P (turn s)
  turn-IsShared s h = shift-IsShared s.state s.others h.state h.others

  call_shared-Keeps :
      {A : Type 0} {P : S → Type 0} (m : Exec S A) → Keeps P m → Keeps (IsShared P) (call_shared m)
  call_shared-Keeps m k = record {
    at = λ s h.
        let h' = turn-IsShared s h in
        record { state = k.at (turn s).state h'.state; others = h'.others };
  }

  -- What the store's methods and the others keep is kept by the methods with the others in between.
  pub share-Preserves :
      {F : Type 0} {P : S → Type 0} (store : Store S F)
      → Preserves store P
      → Preserves (share store) (IsShared P)
  share-Preserves store kept = record {
    create_home = λ home. call_shared-Keeps _ (kept.create_home home);
    list_homes = call_shared-Keeps _ kept.list_homes;
    create_room = λ room. call_shared-Keeps _ (kept.create_room room);
    list_rooms = λ home_id. call_shared-Keeps _ (kept.list_rooms home_id);
    create_device = λ device. call_shared-Keeps _ (kept.create_device device);
    get_device = λ id. call_shared-Keeps _ (kept.get_device id);
    get_device_by_external_node_id =
        λ node. call_shared-Keeps _ (kept.get_device_by_external_node_id node);
    list_devices = λ home_id. call_shared-Keeps _ (kept.list_devices home_id);
    upsert_device_state = λ state. call_shared-Keeps _ (kept.upsert_device_state state);
    list_device_states = λ id. call_shared-Keeps _ (kept.list_device_states id);
    create_local_client = λ client. call_shared-Keeps _ (kept.create_local_client client);
    get_local_client_by_token_hash =
        λ hash. call_shared-Keeps _ (kept.get_local_client_by_token_hash hash);
    touch_local_client = λ id. call_shared-Keeps _ (kept.touch_local_client id);
  }
