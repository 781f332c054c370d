-- ===== src/Storage/Refine/Listed.antt =====
-- A query of a device's states lists the map's states of that device.
use manisa_app.Prelude.{
  ℕ, ◌+◌, ◌≤◌, ◌≡◌, refl, sym, ap, ◌∙◌, inl, inr, Bool, true, false, ◌&&◌, String, none, some, List,
  [], ◌∷◌, ◌==◌, eq_iff, nat_eq, arith, any, All, Option-cases,
}
use manisa_app.Domain.{DeviceState}
use manisa_app.Domain.Error.{Result, ok}
use manisa_app.Application.World.{Result-cases, ◌>>=◌}
use manisa_app.Storage.Tables.{StateRow, Tables, select, order_by, same_key}
use manisa_app.Storage.Engine.{Engine, Db, ran, query_ran}
use manisa_app.Storage.States.{state_le, decode_row, decode_rows, list_device_states}
use manisa_app.Storage.Rows.{Unique, All-map}
use manisa_app.Storage.Upserts.{row_of, same_key_refl, same_key_iff}
use manisa_app.Storage.Listing.{
  Among, Ascending, find-Among, select-Among, order_by-Among, order_by-All, select-All,
  Unique-select, Unique-order_by, Ascending-order_by, find-Unique,
}
use manisa_app.Storage.Refine.{key, view, read, Lists}

state_le_below : (a b : StateRow) → state_le a b ≡ true → a.endpoint ≤ b.endpoint
state_le_below a b h = ground arith

state_le_above : (a b : StateRow) → state_le a b ≡ false → b.endpoint ≤ a.endpoint
state_le_above a b h = ground arith

same_key_sym : (a b : StateRow) → same_key a b ≡ same_key b a
same_key_sym a b = ground (arith, same_key_iff a b, same_key_iff b a)

same_key_of_device :
    (a b : StateRow)
    → a.device_id ≡ b.device_id
    → same_key a b ≡ (nat_eq a.endpoint b.endpoint && a.capability == b.capability)
unfolding same_key
same_key_of_device a b e = let t = (eq_iff a.device_id b.device_id).1 e in rw t refl

module _ {F : Type 0} (engine : Engine F) where
  -- the rows that decode to the states, one by one
  abbrev Decoded : List StateRow → List (DeviceState F) → Type 0
  Decoded [] [] = Unit
  Decoded (r ∷ rs) (s ∷ ss) = (decode_row engine r ≡ some s) × Decoded rs ss
  Decoded _ _ = ⊥

  decoded :
      (rs : List StateRow) (ss : List (DeviceState F))
      → decode_rows engine rs ≡ ok ss
      → Decoded rs ss
  unfolding decode_rows
  decoded [] [] h = tt
  decoded [] (s ∷ ss) h = cc
  decoded (r ∷ rs) ss h = elim (Option-cases (decode_row engine r)) [
    | inl failed ↦ ground arith
    | inr (s, e) ↦ elim (Result-cases (decode_rows engine rs)) [
      | inr (x, failed) ↦ ground arith
      | inl (rest, later) ↦
          let same : ss ≡ s ∷ rest = ground arith in rw same (e, decoded rs rest later)
    ]
  ]

  -- a row's key is its state's
  decode_row-key :
      (r : StateRow) (s : DeviceState F)
      → decode_row engine r ≡ some s
      → (s.device_id ≡ r.device_id) × (s.endpoint ≡ r.endpoint) × (s.capability ≡ r.capability)
  unfolding decode_row
  decode_row-key r s h = elim (Option-cases (engine.unmarshal r.value_json)) [
    | inl failed ↦ ground arith
    | inr (v, e) ↦ (ground arith, ground arith, ground arith)
  ]

  Decoded-All :
      (P : StateRow → Type 0) (Q : DeviceState F → Type 0) (rs : List StateRow)
      (ss : List (DeviceState F))
      → ((r : StateRow) (s : DeviceState F) → decode_row engine r ≡ some s → P r → Q s)
      → Decoded rs ss
      → All P rs
      → All Q ss
  Decoded-All P Q [] [] f d h = tt
  Decoded-All P Q [] (s ∷ ss) f d h = absurd d
  Decoded-All P Q (r ∷ rs) [] f d h = absurd d
  Decoded-All P Q (r ∷ rs) (s ∷ ss) f d h = (f r s d.0 h.0, Decoded-All P Q rs ss f d.1 h.1)

  Decoded-Among :
      (rs : List StateRow) (ss : List (DeviceState F)) (r : StateRow) (s : DeviceState F)
      → Decoded rs ss
      → Among r rs
      → decode_row engine r ≡ some s
      → Among s ss
  Decoded-Among [] ss r s d m e = absurd m
  Decoded-Among (q ∷ rs) [] r s d m e = absurd d
  Decoded-Among (q ∷ rs) (x ∷ ss) r s d (inl same) e =
      inl (let both : some s ≡ some x = sym e ∙ ap (decode_row engine) same ∙ d.0 in ground arith)
  Decoded-Among (q ∷ rs) (x ∷ ss) r s d (inr m) e = inr (Decoded-Among rs ss r s d.1 m e)

  Decoded-Ascending :
      (rs : List StateRow) (ss : List (DeviceState F))
      → Decoded rs ss
      → Ascending (λ r. r.endpoint) rs
      → Ascending (λ s. s.endpoint) ss
  Decoded-Ascending [] [] d h = tt
  Decoded-Ascending [] (s ∷ ss) d h = absurd d
  Decoded-Ascending (r ∷ rs) [] d h = absurd d
  Decoded-Ascending (r ∷ []) (s ∷ []) d h = tt
  Decoded-Ascending (r ∷ []) (s ∷ t ∷ ss) d h = absurd d.1
  Decoded-Ascending (r ∷ q ∷ rs) (s ∷ []) d h = absurd d.1
  Decoded-Ascending (r ∷ q ∷ rs) (s ∷ t ∷ ss) d h =
      let a = decode_row-key r s d.0 in
      let b = decode_row-key q t d.1.0 in
      (omega (arith, a, b, h.0), Decoded-Ascending (q ∷ rs) (t ∷ ss) d.1 h.1)

  Decoded-any :
      (device : String) (r : StateRow) (s : DeviceState F) (rs : List StateRow)
      (ss : List (DeviceState F))
      → decode_row engine r ≡ some s
      → r.device_id ≡ device
      → All (λ q. q.device_id ≡ device) rs
      → Decoded rs ss
      → any (λ t. nat_eq s.endpoint t.endpoint && s.capability == t.capability) ss
        ≡ any (λ q. same_key r q) rs
  Decoded-any device r s [] [] e own h d = refl
  Decoded-any device r s [] (t ∷ ss) e own h d = absurd d
  Decoded-any device r s (q ∷ rs) [] e own h d = absurd d
  Decoded-any device r s (q ∷ rs) (t ∷ ss) e own h d =
      let (_, n, c) = decode_row-key r s e in
      let (_, n', c') = decode_row-key q t d.0 in
      let here : same_key r q ≡ (nat_eq s.endpoint t.endpoint && s.capability == t.capability) =
        same_key_of_device r q (own ∙ sym h.0) ∙ (rw (n, c, n', c') refl) in
      rw (here, ← Decoded-any device r s rs ss e own h.1 d.1) refl

  Decoded-Unique :
      (device : String) (rs : List StateRow) (ss : List (DeviceState F))
      → All (λ q. q.device_id ≡ device) rs
      → Decoded rs ss
      → Unique same_key rs
      → Unique (λ a b. nat_eq a.endpoint b.endpoint && a.capability == b.capability) ss
  Decoded-Unique device [] [] h d u = tt
  Decoded-Unique device [] (s ∷ ss) h d u = absurd d
  Decoded-Unique device (r ∷ rs) [] h d u = absurd d
  Decoded-Unique device (r ∷ rs) (s ∷ ss) h d u =
      (Decoded-any device r s rs ss d.0 h.0 h.1 d.1 ∙ u.0, Decoded-Unique device rs ss h.1 d.1 u.1)

  row_of_self :
      (r : StateRow) (rows : List StateRow)
      → Unique same_key rows
      → Among r rows
      → row_of (key r.device_id r.endpoint r.capability) rows ≡ some r
  unfolding same_key
  row_of_self r rows u m = find-Unique same_key r rows (same_key_refl r) u m

  -- a row of the table and its state
  view_of_row :
      (device : String) (t : Tables) (r : StateRow) (s : DeviceState F)
      → Unique same_key t.device_states
      → decode_row engine r ≡ some s
      → (r.device_id ≡ device) × Among r t.device_states
      → (s.device_id ≡ device) × (view engine t device s.endpoint s.capability ≡ some s)
  view_of_row device t r s u e (own, m) =
      let (d, n, c) = decode_row-key r s e in
      let moved : view engine t device s.endpoint s.capability
          ≡ view engine t r.device_id r.endpoint r.capability =
        rw (n, c, own) refl in
      (d ∙ own, moved ∙ ap (read engine) (row_of_self r t.device_states u m) ∙ e)

  row_of_view :
      (device : String) (endpoint : ℕ) (capability : String) (t : Tables) (s : DeviceState F)
      → view engine t device endpoint capability ≡ some s
      → (r : StateRow) × Among r t.device_states
        × ((r.device_id == device) ≡ true)
        × (decode_row engine r ≡ some s)
  row_of_view device endpoint capability t s h =
      let k = key device endpoint capability in
      elim (Option-cases (row_of k t.device_states)) [
        | inl missing ↦
            absurd (let clash : none ≡ some s = sym (ap (read engine) missing) ∙ h in cc)
        | inr (r, found) ↦
            let (m, same) = find-Among (λ y. same_key y k) r t.device_states found in
            let own = ((same_key_iff r k).0 same).0 in
            (r, m, (eq_iff r.device_id device).1 own, sym (ap (read engine) found) ∙ h)
      ]

  -- The states of a device are listed as the map has them: a query that runs and whose rows can be
  -- decoded, on a table with one row to a key, answers the map's states of that device, all of them
  -- and no others, each once and with ascending endpoints, and leaves the tables alone.
  pub list_device_states-Lists :
      (device : String) (db db' : Db) (fk : Bool) (states : List (DeviceState F))
      → engine.outcome db.statements ≡ ran fk
      → Unique same_key db.tables.device_states
      → list_device_states engine device db ≡ (ok states, db')
      → Lists engine (view engine db.tables) device states × (db'.tables ≡ db.tables)
  unfolding list_device_states
  list_device_states-Lists device db db' fk states runs unique h =
      let own = λ (r : StateRow). r.device_id == device in
      let table = db.tables.device_states in
      let rows = order_by state_le (select own table) in
      let asked =
        query_ran engine (λ t. order_by state_le (select own t.device_states)) db fk runs in
      let whole : list_device_states engine device db
          ≡ (decode_rows engine rows, record db { statements = db.statements + 1 }) =
        rw (list_device_states, ◌>>=◌, asked) refl in
      let same = sym whole ∙ h in
      let d = decoded rows states (ap (λ (p : Result (List (DeviceState F)) × Db). p.0) same) in
      let listed =
        order_by-All state_le (λ r. (r.device_id ≡ device) × Among r table) (select own table)
          (select-All own _ table λ r m t. ((eq_iff r.device_id device).0 t, m)) in
      (
        record {
          sound =
              Decoded-All _ _ rows states (λ r s. view_of_row device db.tables r s unique) d listed;
          complete = λ endpoint capability s e.
              let (r, m, t, read) = row_of_view device endpoint capability db.tables s e in
              Decoded-Among rows states r s d
                (order_by-Among state_le r _ (select-Among own r table m t)) read;
          once = Decoded-Unique device rows states (All-map _ _ rows (λ r k. k.0) listed) d (
              Unique-order_by same_key same_key_sym state_le _
                (Unique-select same_key own table unique));
          ascending =
              Decoded-Ascending rows states d
                (Ascending-order_by state_le (λ r. r.endpoint) state_le_below state_le_above _);
        },
        ap (λ (p : Result (List (DeviceState F)) × Db). p.1.tables) (sym same),
      )
