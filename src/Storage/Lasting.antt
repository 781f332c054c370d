-- ===== src/Storage/Lasting.antt =====
-- No statement takes a device or a client away.
use manisa_app.Prelude.{
  ◌≡◌, refl, String, Bool, some, List, [], ◌∷◌, ◌++◌, ◌==◌, arith, inl, inr, Bool-cases,
}
use manisa_app.Storage.Tables.{DeviceRow, ClientRow, Tables, find, touch_rows}
use manisa_app.Storage.Lookups.{by_id}
use manisa_app.Storage.Statements.{
  Statement, homes, rooms, devices, states, clients, touches, inserted_home, inserted_room,
  inserted_device, inserted_client, upserted, touched,
}

find-stays :
    {A : Type 0} (p : A → Bool) (xs ys : List A) (x : A)
    → find p xs ≡ some x
    → find p (xs ++ ys) ≡ some x
find-stays p [] ys x h = cc
find-stays p (y ∷ xs) ys x h = ground (arith, find-stays p xs ys x)

-- A device's row is found from when it is inserted, as it was inserted.
pub Statement-by_id :
    (id : String) (row : DeviceRow) {fk : Bool} {t t' : Tables}
    → Statement fk t t'
    → by_id id t ≡ some row
    → by_id id t' ≡ some row
Statement-by_id id row {fk} {t} {t'} (homes r h) found = rw ((inserted_home r fk t t' h).1) found
Statement-by_id id row {fk} {t} {t'} (rooms r h) found =
    let (_, _, e) = inserted_room r fk t t' h in rw e found
Statement-by_id id row {fk} {t} {t'} (devices r h) found =
    let (_, _, _, e) = inserted_device r fk t t' h in
    rw e (find-stays (λ d. d.id == id) t.devices (r ∷ []) row found)
Statement-by_id id row {fk} {t} {t'} (states r h) found = elim (upserted r fk t t' h) [
  | inl e ↦ rw e found
  | inr (_, _, e) ↦ rw e found
]
Statement-by_id id row {fk} {t} {t'} (clients r h) found =
    rw ((inserted_client r fk t t' h).1) found
Statement-by_id id row {fk} {t} {t'} (touches c at h) found = rw (touched c at fk t t' h) found

-- a client with this id and name is found under the hash
abbrev pub IsPaired : String → String → String → Tables → Type 0
IsPaired hash id name t =
    (row : ClientRow) × (find (λ r. r.token_hash == hash) t.local_clients ≡ some row)
    × (row.id ≡ id)
    × (row.name ≡ name)

touch_rows-IsPaired :
    (hash id name c at : String) (rs : List ClientRow) (row : ClientRow)
    → find (λ r. r.token_hash == hash) rs ≡ some row
    → row.id ≡ id
    → row.name ≡ name
    → (row' : ClientRow) × (find (λ r. r.token_hash == hash) (touch_rows c at rs) ≡ some row')
      × (row'.id ≡ id)
      × (row'.name ≡ name)
unfolding touch_rows
touch_rows-IsPaired hash id name c at [] row h i n = cc
touch_rows-IsPaired hash id name c at (r ∷ rs) row h i n =
    elim (Bool-cases (r.token_hash == hash)) [
      | inl t ↦
          let same : r ≡ row = ground arith in
          elim (Bool-cases (r.id == c)) [
            | inl hit ↦ (record r { last_used = at }, rw (hit, t) refl, rw same i, rw same n)
            | inr miss ↦ (r, rw (miss, t) refl, rw same i, rw same n)
          ]
      | inr f ↦
          let later = touch_rows-IsPaired hash id name c at rs row (ground arith) i n in
          elim (Bool-cases (r.id == c)) [
            | inl hit ↦ rw (hit, f) later
            | inr miss ↦ rw (miss, f) later
          ]
    ]

-- A client stays paired.
pub Statement-IsPaired :
    (hash id name : String) {fk : Bool} {t t' : Tables}
    → Statement fk t t'
    → IsPaired hash id name t
    → IsPaired hash id name t'
Statement-IsPaired hash id name {fk} {t} {t'} (homes r h) k = rw ((inserted_home r fk t t' h).1) k
Statement-IsPaired hash id name {fk} {t} {t'} (rooms r h) k =
    let (_, _, e) = inserted_room r fk t t' h in rw e k
Statement-IsPaired hash id name {fk} {t} {t'} (devices r h) k =
    let (_, _, _, e) = inserted_device r fk t t' h in rw e k
Statement-IsPaired hash id name {fk} {t} {t'} (states r h) k = elim (upserted r fk t t' h) [
  | inl e ↦ rw e k
  | inr (_, _, e) ↦ rw e k
]
Statement-IsPaired hash id name {fk} {t} {t'} (clients r h) (row, found, i, n) =
    rw ((inserted_client r fk t t' h).1)
      (row, find-stays (λ c. c.token_hash == hash) t.local_clients (r ∷ []) row found, i, n)
Statement-IsPaired hash id name {fk} {t} {t'} (touches c at h) (row, found, i, n) =
    rw (touched c at fk t t' h)
      (touch_rows-IsPaired hash id name c at t.local_clients row found i n)
