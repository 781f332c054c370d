-- ===== src/Auth/RoundTrip.antt =====
-- A client that was paired over SQLite is known by its token.
use manisa_app.Prelude.{
  ℕ, ◌+◌, ◌<◌, ◌≡◌, ◌≢◌, refl, sym, ◌⊎◌, inl, inr, ap, ◌∙◌, String, Bool, true, false, ◌||◌, Option,
  none, some, List, [], ◌∷◌, ◌==◌, eq_iff, eq_refl, arith, any, length, Bool-cases,
}
use manisa_app.Domain.{Time, LocalClient}
use manisa_app.Domain.Store.{Store}
use manisa_app.Domain.Error.{Result, ok, err, Error, fail, unauthorized}
use manisa_app.Text.Trim.{trim_space, trim_space_of_IsPlain, is_empty}
use manisa_app.Text.Base64.{base64, base64-IsPlain, is_empty-base64}
use manisa_app.Platform.Id.{new_id}
use manisa_app.Application.World.{Exec-cases, Result-cases}
use manisa_app.Storage.Tables.{ClientRow, Tables, find, insert_client}
use manisa_app.Storage.Engine.{Engine, Db, ran, exec_ok, query_ran}
use manisa_app.Storage.States.{
  new_store, client_row, read_client, create_local_client, get_local_client_by_token_hash,
}
use manisa_app.Storage.Rows.{find-concat}
use manisa_app.Storage.Statements.{inserted_client}
use manisa_app.Auth.{AuthService, hash_token, refuses, pair, admit, authenticate}

-- the client that has a token hash
abbrev pub by_hash : String → Tables → Option ClientRow
by_hash h t = find (λ r. r.token_hash == h) t.local_clients

any_hash :
    (id h : String) (rs : List ClientRow)
    → any (λ r. r.id == id || r.token_hash == h) rs ≡ false
    → any (λ r. r.token_hash == h) rs ≡ false
any_hash id h [] k = refl
any_hash id h (r ∷ rs) k = ground (arith, any_hash id h rs)

insert_client-found :
    (row : ClientRow) (fk : Bool) (t t' : Tables)
    → insert_client row fk t ≡ some t'
    → by_hash row.token_hash t' ≡ some row
insert_client-found row fk t t' h =
    let (fresh, same) = inserted_client row fk t t' h in
    let free = any_hash row.id row.token_hash t.local_clients fresh in
    rw same (
      rw
        (
          find-concat (λ r. r.token_hash == row.token_hash) t.local_clients row,
          free,
          eq_refl row.token_hash,
        )
        refl)

module _ {F : Type 0} (engine : Engine F) where
  pub created_client :
      (c : LocalClient) (db db' : Db)
      → create_local_client engine c db ≡ (ok tt, db')
      → by_hash c.token_hash db'.tables ≡ some (client_row engine c)
  unfolding create_local_client
  created_client c db db' h =
      let (fk, _, done, _) =
        exec_ok engine (insert_client (client_row engine c)) db db' (ground arith) in
      insert_client-found (client_row engine c) fk db.tables db'.tables done

  pub client_found :
      (h : String) (row : ClientRow) (db : Db) (fk : Bool)
      → engine.outcome db.statements ≡ ran fk
      → by_hash h db.tables ≡ some row
      → get_local_client_by_token_hash engine h db
        ≡ (ok (read_client engine row), record db { statements = db.statements + 1 })
  unfolding get_local_client_by_token_hash
  client_found h row db fk runs found = rw (query_ran engine (by_hash h) db fk runs, found) refl

module _ {S F : Type 0} (sum : String → List ℕ) (svc : AuthService S F) where
  -- Pairing either changes nothing and fails, or has had the code and a name that is not empty, and
  -- hands the store a client with the trimmed name and the hash of a token made of the random bytes; it
  -- succeeds with that client and that token just if the store does.
  pub pair_lem :
      (now : Time) (raw random : Option (List ℕ)) (code name : String) (s s' : S)
      (r : Result (LocalClient × String))
      → pair sum svc now raw random code name s ≡ (r, s')
      → ((s' ≡ s) × ((e : Error) × (r ≡ err e)))
        ⊎ ((bytes : List ℕ) × (client : LocalClient) × (raw ≡ some bytes)
            × (trim_space code ≡ svc.pairing_code)
            × (trim_space name ≢ "")
            × (client.name ≡ trim_space name)
            × (client.token_hash ≡ hash_token sum svc (base64 bytes))
            × (client.created_at ≡ now)
            × (client.last_used ≡ now)
            × (((svc.store.create_local_client client s ≡ (ok tt, s'))
                  × (r ≡ ok (client, base64 bytes)))
                ⊎ ((e : Error) × (svc.store.create_local_client client s ≡ (err e, s'))
                    × (r ≡ err e))))
  unfolding pair
  pair_lem now none random code name s s' r h =
      elim (Bool-cases (refuses sum svc (trim_space code) (trim_space name))) [
        | inl refused ↦ inl (ground arith)
        | inr taken ↦ inl (ground arith)
      ]
  pair_lem now (some bytes) random code name s s' r h =
      elim (Bool-cases (refuses sum svc (trim_space code) (trim_space name))) [
        | inl refused ↦ inl (ground arith)
        | inr taken ↦ elim (Result-cases (new_id random "client")) [
          | inr (e, no_id) ↦ inl (ground arith)
          | inl (id, fresh) ↦
              let c : LocalClient = record {
                id = id;
                name = trim_space name;
                token_hash = hash_token sum svc (base64 bytes);
                created_at = now;
                last_used = now;
              } in
              let right : trim_space code ≡ svc.pairing_code =
                (eq_iff (trim_space code) svc.pairing_code).0 (ground arith) in
              let named : trim_space name ≢ "" = ground (arith, eq_iff (trim_space name) "") in
              inr (
                bytes,
                c,
                refl,
                right,
                named,
                refl,
                refl,
                refl,
                refl,
                elim (Exec-cases (svc.store.create_local_client c s)) [
                  | inl (_, db, stored) ↦ inl (ground arith)
                  | inr (e, db, failed) ↦ inr (e, ground arith, ground arith)
                ],
              )
        ]
      ]

  -- Authenticating either answers ErrUnauthorized, or the token was not empty and the client is the one
  -- that the store has under the token's hash; the store is then as the update of that client leaves it.
  pub authenticate_lem :
      (token : String) (s s' : S) (r : Result LocalClient)
      → authenticate sum svc token s ≡ (r, s')
      → (r ≡ fail unauthorized)
        ⊎ ((client : LocalClient) × (s1 : S) × (trim_space token ≢ "")
            × (svc.store.get_local_client_by_token_hash (hash_token sum svc (trim_space token)) s
                ≡ (ok client, s1))
            × (r ≡ ok client)
            × (s' ≡ (svc.store.touch_local_client client.id s1).1))
  unfolding authenticate admit
  authenticate_lem token s s' r h = elim (Bool-cases (trim_space token == "")) [
    | inl empty ↦ inl (ground arith)
    | inr full ↦
        elim (Exec-cases
          (svc.store.get_local_client_by_token_hash (hash_token sum svc (trim_space token)) s)) [
            | inr (e, s1, missing) ↦ inl (ground arith)
            | inl (c, s1, found) ↦ inr (
              c,
              s1,
              ground (arith, eq_iff (trim_space token) ""),
              found,
              ground arith,
              ground arith,
            )
          ]
  ]

  pub authenticate_of :
      (token : String) (client : LocalClient) (s s1 : S)
      → trim_space token ≡ token
      → (token == "") ≡ false
      → svc.store.get_local_client_by_token_hash (hash_token sum svc token) s ≡ (ok client, s1)
      → (authenticate sum svc token s).0 ≡ ok client
  unfolding authenticate admit
  authenticate_of token client s s1 plain full found = rw plain (ground arith)

-- A token is not empty.
token_full : (bytes : List ℕ) → 0 < length bytes → (base64 bytes == "") ≡ false
token_full bytes h = elim (Bool-cases (base64 bytes == "")) [
  | inr full ↦ full
  | inl blank ↦
      let empty : is_empty (base64 bytes) ≡ true =
        ap is_empty ((eq_iff (base64 bytes) "").0 blank) in
      ground (arith, is_empty-base64 bytes h)
]

-- Over any store, a client that was paired is one that the store has taken, with the hash of its token,
-- which is no white space.
pub pair_created :
    {S F : Type 0} (sum : String → List ℕ) (svc : AuthService S F) (now : Time) (bytes : List ℕ)
    (random : Option (List ℕ)) (code name token : String) (client : LocalClient) (s s' : S)
    → 0 < length bytes
    → pair sum svc now (some bytes) random code name s ≡ (ok (client, token), s')
    → (svc.store.create_local_client client s ≡ (ok tt, s'))
      × (client.token_hash ≡ hash_token sum svc token)
      × (trim_space token ≡ token)
      × ((token == "") ≡ false)
      × (client.created_at ≡ now)
      × (client.last_used ≡ now)
pair_created sum svc now bytes random code name token client s s' full h =
    elim (pair_lem sum svc now (some bytes) random code name s s' (ok (client, token)) h) [
      | inl (same, (e, failed)) ↦ cc
      | inr (bytes', c, eb, right, named, en, eh, ec, el, inr (e, unstored, failed)) ↦ cc
      | inr (bytes', c, eb, right, named, en, eh, ec, el, inl (stored, done)) ↦
          let same_bytes : bytes ≡ bytes' = ground arith in
          let same_client : client ≡ c = ground arith in
          let same_token : token ≡ base64 bytes = ground arith in
          rw (same_token, same_client)
            (
              stored,
              rw same_bytes eh,
              trim_space_of_IsPlain (base64 bytes) (base64-IsPlain bytes),
              token_full bytes full,
              ec,
              el,
            )
    ]

-- Over SQLite, a client that was paired is stored under the hash of its token, which is no white space.
pub pair_stored :
    {F : Type 0} (engine : Engine F) (sum : String → List ℕ) (svc : AuthService Db F) (now : Time)
    (bytes : List ℕ) (random : Option (List ℕ)) (code name token : String) (client : LocalClient)
    (db db' : Db)
    → svc.store ≡ new_store engine
    → 0 < length bytes
    → pair sum svc now (some bytes) random code name db ≡ (ok (client, token), db')
    → (by_hash (hash_token sum svc token) db'.tables ≡ some (client_row engine client))
      × (trim_space token ≡ token)
      × ((token == "") ≡ false)
      × (client.created_at ≡ now)
      × (client.last_used ≡ now)
pair_stored {F} engine sum svc now bytes random code name token client db db' over full h =
    let (stored, hashed, plain, not_blank, ec, el) =
      pair_created sum svc now bytes random code name token client db db' full h in
    let created : create_local_client engine client db ≡ (ok tt, db') =
      sym (ap (λ (store : Store Db F). store.create_local_client client db) over) ∙ stored in
    (rw (← hashed) (created_client engine client db db' created), plain, not_blank, ec, el)

-- Over SQLite, a client that was paired, with at least one random byte for its token and at a time that
-- survives being written as text, is the client that its token authenticates at the next statement, if
-- that statement runs.
pub authenticate-pair :
    {F : Type 0} (engine : Engine F) (sum : String → List ℕ) (svc : AuthService Db F) (now : Time)
    (bytes : List ℕ) (random : Option (List ℕ)) (code name token : String) (client : LocalClient)
    (db db' : Db) (fk : Bool)
    → svc.store ≡ new_store engine
    → 0 < length bytes
    → engine.parse_time (engine.format_time now) ≡ now
    → pair sum svc now (some bytes) random code name db ≡ (ok (client, token), db')
    → engine.outcome db'.statements ≡ ran fk
    → (authenticate sum svc token db').0 ≡ ok client
authenticate-pair engine sum svc now bytes random code name token client db db' fk over full time h
      runs =
    let (stored, plain, not_blank, ec, el) =
      pair_stored engine sum svc now bytes random code name token client db db' over full h in
    let found =
      client_found engine (hash_token sum svc token) (client_row engine client) db' fk runs
        stored in
    let made : engine.parse_time (engine.format_time client.created_at) ≡ client.created_at =
      rw ec time in
    let used : engine.parse_time (engine.format_time client.last_used) ≡ client.last_used =
      rw el time in
    authenticate_of sum svc token client db' (record db' { statements = db'.statements + 1 }) plain
      not_blank (rw over (found ∙ rw (made, used) refl))
