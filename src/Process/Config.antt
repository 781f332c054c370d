-- ===== src/Process/Config.antt =====
-- internal/config/config.go. `getenv_os` is os.Getenv, "" for a variable that is not set.
use Prim.Native.Char.{code}
use manisa_app.Prelude.{
  ℕ, ◌+◌, ◌≤◌, ◌≡◌, ◌≢◌, String, not, ltb, List, ◌∙◌, ◌==◌, eq_iff, ◌⊎◌, Option, some, arith,
  if◌then◌else◌, Bool-cases, inl, inr,
}
use manisa_app.Domain.{Time, LocalClient}
use manisa_app.Domain.Store.{Store}
use manisa_app.Domain.Error.{Result, ok, err, message, sentinel, unauthorized}
use manisa_app.Text.Trim.{trim_space}
use manisa_app.Text.Base64.{base64}
use manisa_app.Platform.Id.{new_id}
use manisa_app.Application.World.{Exec-cases}
use manisa_app.Auth.{AuthService, new_auth, hash_token, pair}

pub record Config : Type 0 where
  pub http_addr : String
  pub database_path : String
  pub matter_ws_url : String
  pub pairing_code : String

-- len(s): the bytes of the text in UTF-8
unfoldable pub byte_length : String → ℕ
byte_length String.[] = 0
byte_length (String.◌∷◌ c s) =
    (if ltb (code c) 0x80
      then 1
      else if ltb (code c) 0x800
      then 2
      else if ltb (code c) 0x10000
      then 3
      else 4)
    + byte_length s

unfoldable pub getenv : (String → String) → String → String → String
getenv getenv_os key fallback = if not (getenv_os key == "") then getenv_os key else fallback

unfoldable pub load : (String → String) → Result Config
load getenv_os =
    let pairing_code = trim_space (getenv_os "MANISA_PAIRING_CODE") in
    if ltb (byte_length pairing_code) 8
    then err (message "MANISA_PAIRING_CODE must be configured with at least 8 characters")
    else ok (record {
      http_addr = getenv getenv_os "MANISA_HTTP_ADDR" ":8080";
      database_path = getenv getenv_os "MANISA_DB_PATH" "./data/manisa.db";
      matter_ws_url = getenv getenv_os "MANISA_MATTER_WS_URL" "ws://127.0.0.1:5580/ws";
      pairing_code = pairing_code;
    })

getenv_full :
    (getenv_os : String → String) (key fallback : String)
    → fallback ≢ ""
    → getenv getenv_os key fallback ≢ ""
unfolding getenv
getenv_full getenv_os key fallback h = elim (Bool-cases (getenv_os key == "")) [
  | inl unset ↦ rw unset h
  | inr set ↦ rw set (ground (arith, eq_iff (getenv_os key) ""))
]

-- How a client's code is dealt with: by what was set, white space at both ends of each aside.
module _ {S F : Type 0} (sum : String → List ℕ) (store : Store S F) (config : Config)
    (getenv_os : String → String) where
  abbrev pub service_of : AuthService S F
  service_of = new_auth store config.pairing_code

  abbrev pub IsSetCode : String → Type 0
  IsSetCode code = trim_space code ≡ trim_space (getenv_os "MANISA_PAIRING_CODE")

  -- what is stored, and then given back with its token
  abbrev pub client_of : Time → List ℕ → String → String → LocalClient
  client_of now bytes id name = record {
    id = id;
    name = trim_space name;
    token_hash = hash_token sum service_of (base64 bytes);
    created_at = now;
    last_used = now;
  }

  abbrev pub issued : LocalClient → String → Result (Unit {0}) → Result (LocalClient × String)
  issued client token (ok done) = ok (client, token)
  issued client token (err e) = err e

  abbrev pub Answered : Time → List ℕ → Option (List ℕ) → String → String → String → S → Type 0
  Answered now bytes random id code name s =
      let client = client_of now bytes id name in
      (IsSetCode code
        × (pair sum service_of now (some bytes) random code name s ≡ (
          issued client (base64 bytes) (store.create_local_client client s).0,
          (store.create_local_client client s).1,
        )))
      ⊎ ((¬ IsSetCode code)
          × (pair sum service_of now (some bytes) random code name s
              ≡ (err (sentinel unauthorized), s)))

  pair_by_code :
      (now : Time) (bytes : List ℕ) (random : Option (List ℕ)) (id code name : String) (s : S)
      → new_id random "client" ≡ ok id
      → trim_space name ≢ ""
      → config.pairing_code ≡ trim_space (getenv_os "MANISA_PAIRING_CODE")
      → Answered now bytes random id code name s
  unfolding pair
  pair_by_code now bytes random id code name s fresh named own =
      elim (Bool-cases (trim_space code == config.pairing_code)) [
        | inl same ↦
            let client = client_of now bytes id name in
            inl (
              (eq_iff (trim_space code) config.pairing_code).0 same ∙ own,
              elim (Exec-cases (store.create_local_client client s)) [
                | inl (_, db, stored) ↦ ground (arith, eq_iff (trim_space name) "")
                | inr (e, db, failed) ↦ ground (arith, eq_iff (trim_space name) "")
              ],
            )
        | inr other ↦
            inr
              (λ right. ground (arith, eq_iff (trim_space code) config.pairing_code), ground arith)
      ]

-- A configuration that is accepted has a pairing code of at least eight bytes, an address, a database
-- path and a server URL that are not empty. The auth.Service that is made with its code, the random
-- source giving the bytes of a token and an id, deals with a client whose name is not blank as follows:
-- it is paired, if the store takes it, when it sends the value of MANISA_PAIRING_CODE, white space at
-- both ends of what was set and of what is sent aside, and with any other code it is refused, and
-- nothing is changed.
pub load_lem :
    {S F : Type 0} (getenv_os : String → String) (config : Config) (sum : String → List ℕ)
    (store : Store S F) (now : Time) (bytes : List ℕ) (random : Option (List ℕ))
    (id code name : String) (s : S)
    → load getenv_os ≡ ok config
    → new_id random "client" ≡ ok id
    → trim_space name ≢ ""
    → (8 ≤ byte_length config.pairing_code)
      × (config.http_addr ≢ "")
      × (config.database_path ≢ "")
      × (config.matter_ws_url ≢ "")
      × Answered sum store config getenv_os now bytes random id code name s
unfolding load
load_lem getenv_os config sum store now bytes random id code name s h fresh named =
    elim (Bool-cases (ltb (byte_length (trim_space (getenv_os "MANISA_PAIRING_CODE"))) 8)) [
      | inl short ↦ ground arith
      | inr long ↦
          let own : config.pairing_code ≡ trim_space (getenv_os "MANISA_PAIRING_CODE") =
            ground arith in
          let at : config.http_addr ≡ getenv getenv_os "MANISA_HTTP_ADDR" ":8080" = ground arith in
          let db : config.database_path ≡ getenv getenv_os "MANISA_DB_PATH" "./data/manisa.db" =
            ground arith in
          let ws : config.matter_ws_url
              ≡ getenv getenv_os "MANISA_MATTER_WS_URL" "ws://127.0.0.1:5580/ws" =
            ground arith in
          (
            rw own (ground arith),
            rw at (getenv_full getenv_os _ _ (ground (arith, eq_iff ":8080" ""))),
            rw db (getenv_full getenv_os _ _ (ground (arith, eq_iff "./data/manisa.db" ""))),
            rw ws (getenv_full getenv_os _ _ (ground (arith, eq_iff "ws://127.0.0.1:5580/ws" ""))),
            pair_by_code sum store config getenv_os now bytes random id code name s fresh named own,
          )
    ]
