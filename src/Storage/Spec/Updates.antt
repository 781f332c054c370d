-- ===== src/Storage/Spec/Updates.antt =====
-- The statements of internal/storage/sqlite that overwrite rows implement the changes of a Hub.
use manisa_app.Prelude.{
  ℕ, ◌≡◌, refl, ◌∙◌, ◌⊎◌, inl, inr, String, Bool, true, false, none, some, List, [], ◌∷◌, ◌==◌, any,
  map, All, All-append, Bool-cases, if◌then◌else◌,
}
use manisa_app.Domain.{DeviceState, LocalClient}
use manisa_app.Storage.Tables.{upsert_state, overwrite, same_key, touch_client, touch_rows}
use manisa_app.Storage.Engine.{Engine, ran, exec_ran}
use manisa_app.Storage.Sqlite.{device_row}
use manisa_app.Storage.States.{
  state_row, client_row, upsert_encoded, upsert_device_state, touch_local_client,
}
use manisa_app.Storage.Refine.{Survives}
use manisa_app.Storage.Spec.{Hub, same_state, renew, put_state, renewed, is_strange, use_at, spec}
use manisa_app.Storage.Spec.Mapped.{any-map, map-append}
use manisa_app.Storage.Spec.Rows.{IsKept, IsStored, Implements, row_of_state, tables_of, db_of}
use manisa_app.Storage.Spec.Changes.{changes}

module _ {F : Type 0} (engine : Engine F) (runs : (n : ℕ) → engine.outcome n ≡ ran true) where
  overwrite-row :
      (s : DeviceState F) (k : Survives engine s) (xs : List (DeviceState F))
      → overwrite (state_row engine s k.encoded) (map (row_of_state engine) xs)
        ≡ map (row_of_state engine) (renew s xs)
  unfolding overwrite same_key
  overwrite-row s k [] = refl
  overwrite-row s k (x ∷ xs) = elim (Bool-cases (same_state x s)) [
    | inl same ↦ rw (same, overwrite-row s k xs, k.written) refl
    | inr other ↦ rw (other, overwrite-row s k xs) refl
  ]

  renew-Survives :
      (s : DeviceState F) (k : Survives engine s) (xs : List (DeviceState F))
      → All (Survives engine) xs
      → All (Survives engine) (renew s xs)
  renew-Survives s k [] h = tt
  renew-Survives s k (x ∷ xs) (h, hs) = (at (same_state x s), renew-Survives s k xs hs)
    where
      at :
          (b : Bool)
          → Survives engine (
              if b
              then record x { value = s.value; source = s.source; updated_at = s.updated_at }
              else x)
      at true = record { encoded = k.encoded; written = k.written; value = k.value; time = k.time }
      at false = h

  put_state-Survives :
      (s : DeviceState F) (k : Survives engine s) (xs : List (DeviceState F))
      → All (Survives engine) xs
      → All (Survives engine) (put_state s xs)
  put_state-Survives s k xs h = elim (Bool-cases (any (λ x. same_state x s) xs)) [
    | inl old ↦ rw old (renew-Survives s k xs h)
    | inr new ↦ rw new (All-append _ xs (s ∷ []) h (k, tt))
  ]

  upsert_state-hub :
      (s : DeviceState F) (k : Survives engine s) (hub : Hub F)
      → upsert_state (state_row engine s k.encoded) true (tables_of engine hub)
        ≡ (if is_strange s hub then none else some (tables_of engine (renewed s hub)))
  unfolding upsert_state same_key
  upsert_state-hub s k hub =
      let known =
        any-map (row_of_state engine) (λ r. same_key r (state_row engine s k.encoded)) hub.states in
      let device = any-map (device_row engine) (λ r. r.id == s.device_id) hub.devices in
      elim (Bool-cases (any (λ x. same_state x s) hub.states)) [
        | inl old ↦ rw (known, old, overwrite-row s k hub.states) refl
        | inr new ↦ elim (Bool-cases (any (λ d. d.id == s.device_id) hub.devices)) [
          | inl there ↦
              rw (known, new, device, there, map-append (row_of_state engine) hub.states (s ∷ []))
                (rw k.written refl)
          | inr missing ↦ rw (known, new, device, missing) refl
        ]
      ]

  -- A state whose value has no JSON text is refused, and no statement runs.
  pub upsert_device_state-Implements :
      (s : DeviceState F)
      → (engine.marshal s.value ≡ none) ⊎ IsStored engine s
      → Implements engine (upsert_device_state engine s) ((spec engine).upsert_device_state s)
  unfolding upsert_device_state upsert_encoded
  upsert_device_state-Implements s (inl unwritten) hub r =
      rw (upsert_device_state, unwritten, upsert_encoded) (refl, r)
  upsert_device_state-Implements s (inr k) hub r =
      let s' : DeviceState F = record s { value = k.read } in
      let k' : Survives engine s' = record {
        encoded = k.encoded;
        written = k.again;
        value = k.value;
        time = k.time;
      } in
      rw (upsert_device_state, k.written, upsert_encoded, k.value)
        (changes engine runs "upsert device state" (upsert_state (state_row engine s' k.encoded))
          (is_strange s' hub) (renewed s') hub refl (upsert_state-hub s' k' hub) r
          (record {
            homes = r.homes;
            rooms = r.rooms;
            devices = r.devices;
            states = put_state-Survives s' k' hub.states r.states;
            clients = r.clients;
          }))

  touch_rows-client :
      (id : String) (at : ℕ) (cs : List LocalClient)
      → touch_rows id (engine.format_time at) (map (client_row engine) cs)
        ≡ map (client_row engine) (use_at id at cs)
  unfolding touch_rows
  touch_rows-client id at [] = refl
  touch_rows-client id at (c ∷ cs) = elim (Bool-cases (c.id == id)) [
    | inl hit ↦ rw (hit, touch_rows-client id at cs) refl
    | inr miss ↦ rw (miss, touch_rows-client id at cs) refl
  ]

  use_at-IsKept :
      (id : String) (at : ℕ) (cs : List LocalClient)
      → IsKept engine at
      → All (λ (c : LocalClient). IsKept engine c.created_at × IsKept engine c.last_used) cs
      → All
          (λ (c : LocalClient). IsKept engine c.created_at × IsKept engine c.last_used)
          (use_at id at cs)
  use_at-IsKept id at [] kept h = tt
  use_at-IsKept id at (c ∷ cs) kept (h, hs) = elim (Bool-cases (c.id == id)) [
    | inl hit ↦ rw hit ((h.0, kept), use_at-IsKept id at cs kept hs)
    | inr miss ↦ rw miss (h, use_at-IsKept id at cs kept hs)
  ]

  pub touch_local_client-Implements :
      (id : String)
      → ((n : ℕ) → IsKept engine (engine.clock n))
      → Implements engine (touch_local_client engine id) ((spec engine).touch_local_client id)
  unfolding touch_local_client touch_client
  touch_local_client-Implements id kept hub r =
      let at = engine.clock hub.asked in
      let ran_to =
        exec_ran engine (touch_client id (engine.format_time at)) (db_of engine hub) _ true
          (runs hub.asked) refl in
      (
        ran_to ∙ (rw (touch_rows-client id at hub.clients) refl),
        record {
          homes = r.homes;
          rooms = r.rooms;
          devices = r.devices;
          states = r.states;
          clients = use_at-IsKept id at hub.clients (kept hub.asked) r.clients;
        },
      )
