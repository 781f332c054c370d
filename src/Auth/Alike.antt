-- ===== src/Auth/Alike.antt =====
-- Pairing and authentication answer alike over stores that answer alike.
use manisa_app.Prelude.{ℕ, String, Option, List}
use manisa_app.Domain.{Time, LocalClient, DeviceState}
use manisa_app.Domain.Error.{Result, ok, err}
use manisa_app.Domain.Store.{Store}
use manisa_app.Auth.{AuthService, new_auth, pair, admit, authenticate}
use manisa_app.Application.Simulates.{Simulates, simulates_rules}
use manisa_app.Application.Simulates.Stores.{Alike}

module _ {S T F : Type 0} (sum : String → List ℕ) (store : Store S F) (other : Store T F)
    (code : String) (R : S → T → Type 0) (IsTime : Time → Type 0) (IsState : DeviceState F → Type 0)
    (alike : Alike store other R IsTime IsState) where
  abbrev auth : AuthService S F
  auth = new_auth store code

  abbrev auth' : AuthService T F
  auth' = new_auth other code

  pub pair-Simulates :
      (now : Time) (raw random : Option (List ℕ)) (code name : String)
      → IsTime now
      → Simulates R
          (pair sum auth now raw random code name)
          (pair sum auth' now raw random code name)
  unfolding pair
  pair-Simulates now raw random code name t =
      search (simulates_rules, alike.create_local_client) depth 14

  admit-Simulates : (r : Result LocalClient) → Simulates R (admit sum auth r) (admit sum auth' r)
  unfolding admit
  admit-Simulates (err e) = search simulates_rules
  admit-Simulates (ok client) = search (simulates_rules, alike.touch_local_client)

  pub authenticate-Simulates :
      (token : String) → Simulates R (authenticate sum auth token) (authenticate sum auth' token)
  unfolding authenticate
  authenticate-Simulates token =
      search (simulates_rules, alike.get_local_client_by_token_hash, admit-Simulates)
