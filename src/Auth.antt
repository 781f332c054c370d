-- ===== src/Auth.antt =====
-- internal/auth/service.go: clients are paired by a code, and are known by a token of which only the
-- hash is stored. `sum` is crypto/sha256.
pub mod RoundTrip
pub mod Keeping
pub mod Alike
use manisa_app.Prelude.{ℕ, String, Bool, ◌||◌, not, Option, none, some, List, ◌==◌, if◌then◌else◌}
use manisa_app.Domain.{Time, LocalClient}
use manisa_app.Domain.Error.{Exec, Result, ok, err, message, unauthorized}
use manisa_app.Domain.Store.{Store}
use manisa_app.Text.Trim.{trim_space}
use manisa_app.Text.Base64.{base64}
use manisa_app.Platform.Id.{hex_encode, new_id}
use manisa_app.Application.World.{pure, lift, raise, ◌>>=◌, ◌>>◌, attempt}

pub record AuthService (S F : Type 0) : Type 0 where
  pub store : Store S F
  pub pairing_code : String

-- New
abbrev pub new_auth : {S F : Type 0} → Store S F → String → AuthService S F
new_auth store pairing_code = record { store = store; pairing_code = pairing_code }

-- the bytes of the token, or the random source's error
abbrev pub token_of : Option (List ℕ) → Result String
token_of none = err (message "random source")
token_of (some raw) = ok (base64 raw)

module _ {S F : Type 0} (sum : String → List ℕ) (svc : AuthService S F) where
  -- hashToken
  abbrev pub hash_token : String → String
  hash_token token = hex_encode (sum token)

  abbrev pub refuses : String → String → Bool
  refuses code client_name = client_name == "" || not (code == svc.pairing_code)

  -- Pair; `raw` is what the random source answers for the token, `random` for the id.
  unfoldable pub pair :
      Time → Option (List ℕ) → Option (List ℕ) → String → String → Exec S (LocalClient × String)
  pair now raw random raw_code raw_name =
      let client_name = trim_space raw_name in
      if refuses (trim_space raw_code) client_name then raise unauthorized else do
        token ← lift (token_of raw)
        id ← lift (new_id random "client")
        let client : LocalClient = record {
          id = id;
          name = client_name;
          token_hash = hash_token token;
          created_at = now;
          last_used = now;
        }
        svc.store.create_local_client client
        pure (client, token)

  -- What follows the lookup in `Authenticate`: the error of the update is ignored.
  unfoldable pub admit : Result LocalClient → Exec S LocalClient
  admit (err e) = raise unauthorized
  admit (ok client) = do _ ← attempt (svc.store.touch_local_client client.id); pure client

  -- Authenticate
  unfoldable pub authenticate : String → Exec S LocalClient
  authenticate raw =
      let token = trim_space raw in
      if token == "" then raise unauthorized else do
        found ← attempt (svc.store.get_local_client_by_token_hash (hash_token token))
        admit found
