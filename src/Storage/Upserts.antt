-- ===== src/Storage/Upserts.antt =====
-- The upsert of device states: the last write of a key is the one that is read.
use manisa_app.Prelude.{
  ◌≡◌, ◌↔◌, refl, Bool, true, false, ◌&&◌, Option, none, some, List, [], ◌∷◌, arith, any, eq_iff,
  if◌then◌else◌, Bool-cases, inl, inr,
}
use manisa_app.Storage.Tables.{StateRow, Tables, find, same_key, overwrite, upsert_state}
use manisa_app.Storage.Rows.{find-concat, find_of_any-false}

pub same_key_iff :
    (a b : StateRow)
    → (same_key a b ≡ true)
      ↔ ((a.device_id ≡ b.device_id) × (a.endpoint ≡ b.endpoint) × (a.capability ≡ b.capability))
unfolding same_key
same_key_iff a b = ground (arith, eq_iff a.device_id b.device_id, eq_iff a.capability b.capability)

abbrev with_values : StateRow → StateRow → StateRow
with_values row r = record r {
  value_json = row.value_json;
  source = row.source;
  updated_at = row.updated_at;
}

with_values-eq : (row r : StateRow) → same_key r row ≡ true → with_values row r ≡ row
with_values-eq row r h = let e = (same_key_iff r row).0 h in ground arith

same_key_trans : (a b c : StateRow) → same_key a b ≡ true → same_key a c ≡ same_key b c
unfolding same_key
same_key_trans a b c h = let e = (same_key_iff a b).0 h in cc

same_key-swap : (r row k : StateRow) → same_key row k ≡ true → same_key r k ≡ same_key r row
unfolding same_key
same_key-swap r row k h = let e = (same_key_iff row k).0 h in cc

pub same_key_refl : (r : StateRow) → same_key r r ≡ true
same_key_refl r = (same_key_iff r r).1 (refl, refl, refl)

-- The row with this key.
abbrev pub row_of : StateRow → List StateRow → Option StateRow
row_of k rows = find (λ r. same_key r k) rows

row_of-overwrite :
    (row k : StateRow) (rs : List StateRow)
    → row_of k (overwrite row rs)
      ≡ (if same_key row k && any (λ r. same_key r row) rs then some row else row_of k rs)
unfolding overwrite
row_of-overwrite row k [] = ground arith
row_of-overwrite row k (r ∷ rs) = elim (Bool-cases (same_key r row)) [
  | inl t ↦
      rw (t, with_values-eq row r t, same_key_trans r row k t)
        (ground (arith, row_of-overwrite row k rs))
  | inr f ↦ rw (f) (ground (arith, row_of-overwrite row k rs, same_key-swap r row k))
]

-- With no row of the key of `row`, none has a key that `row` has.
any_of_same :
    (row k : StateRow) (rs : List StateRow)
    → same_key row k ≡ true
    → any (λ r. same_key r k) rs ≡ any (λ r. same_key r row) rs
any_of_same row k [] h = refl
any_of_same row k (r ∷ rs) h = ground (arith, same_key-swap r row k, any_of_same row k rs)

find_of_any :
    (k : StateRow) (rs : List StateRow) → any (λ r. same_key r k) rs ≡ false → row_of k rs ≡ none
find_of_any k rs h = find_of_any-false _ rs h

-- After an upsert that meets no constraint, the row written is the one found under its key, and what
-- is found under any other key, and every other table, is as before.
pub row_of-upsert :
    (row k : StateRow) (fk : Bool) (t t' : Tables)
    → upsert_state row fk t ≡ some t'
    → (row_of k t'.device_states ≡ (if same_key row k then some row else row_of k t.device_states))
      × (t' ≡ record t { device_states = t'.device_states })
unfolding upsert_state
row_of-upsert row k fk t t' h = ground (
  arith,
  row_of-overwrite row k t.device_states,
  find-concat (λ r. same_key r k) t.device_states row,
  any_of_same row k t.device_states,
  find_of_any k t.device_states,
)
