-- ===== src/Auth/Keeping.antt =====
-- Pairing and authentication keep what the store's methods keep.
use manisa_app.Prelude.{ℕ, String, Option, List}
use manisa_app.Domain.{Time, LocalClient}
use manisa_app.Domain.Error.{Result, ok, err}
use manisa_app.Auth.{AuthService, pair, admit, authenticate}
use manisa_app.Application.Keeps.{Keeps, keeps_rules}
use manisa_app.Application.Keeps.Stores.{Preserves}

module _ {S F : Type 0} (sum : String → List ℕ) (svc : AuthService S F) (P : S → Type 0)
    (kept : Preserves svc.store P) where
  pub pair-Keeps :
      (now : Time) (raw random : Option (List ℕ)) (code name : String)
      → Keeps P (pair sum svc now raw random code name)
  unfolding pair
  pair-Keeps now raw random code name = search (keeps_rules, kept.create_local_client) depth 12

  admit-Keeps : (r : Result LocalClient) → Keeps P (admit sum svc r)
  unfolding admit
  admit-Keeps (err e) = search keeps_rules
  admit-Keeps (ok client) = search (keeps_rules, kept.touch_local_client)

  pub authenticate-Keeps : (token : String) → Keeps P (authenticate sum svc token)
  unfolding authenticate
  authenticate-Keeps token = search (keeps_rules, kept.get_local_client_by_token_hash, admit-Keeps)
