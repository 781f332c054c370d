-- ===== src/Tests/Auth.antt =====
-- Pairing and authentication.
use Prim.Native.Char.{code}
use manisa_app.Prelude.{ℕ, ◌≡◌, ◌≢◌, refl, ◌⊎◌, String, true, Option, some, List, [], ◌∷◌, arith}
use manisa_app.Float.Ratio.{Ratio}
use manisa_app.Domain.{LocalClient}
use manisa_app.Domain.Error.{Result, Error, ok, err, fail, unauthorized}
use manisa_app.Text.Trim.{trim_space}
use manisa_app.Text.Number.{parse_uint, format_uint}
use manisa_app.Text.Base64.{base64}
use manisa_app.Platform.Id.{new_id, hex_encode}
use manisa_app.Storage.Tables.{insert_client}
use manisa_app.Storage.Engine.{Db, exec}
use manisa_app.Storage.States.{new_store, client_row, create_local_client}
use manisa_app.Auth.{AuthService, hash_token, pair, authenticate}
use manisa_app.Auth.RoundTrip.{pair_lem, authenticate_lem, authenticate-pair}
use manisa_app.Tests.Fixture.{engine, tables}

-- in place of SHA-256
abbrev pub codes : String → List ℕ
codes String.[] = []
codes (String.◌∷◌ c s) = code c ∷ codes s

abbrev pub hub : AuthService Db Ratio
hub = record { store = new_store engine; pairing_code = "code-1234" }

abbrev db : Db
db = record { tables = tables; statements = 0 }

abbrev pub phone : LocalClient
phone = record {
  id = "client_0aff";
  name = "Phone";
  token_hash = "41514944";
  created_at = 30;
  last_used = 30;
}

abbrev pub paired : Db
paired = record {
  tables = record tables { local_clients = client_row engine phone ∷ [] };
  statements = 1;
}

pair-phone :
    pair codes hub 30 (some (1 ∷ 2 ∷ 3 ∷ [])) (some (10 ∷ 255 ∷ [])) " code-1234" "Phone " db
    ≡ (ok (phone, "AQID"), paired)
unfolding pair create_local_client exec insert_client base64 new_id hex_encode trim_space
pair-phone = refl

authenticate-pair_example : (authenticate codes hub "AQID" paired).0 ≡ ok phone
unfolding parse_uint format_uint
authenticate-pair_example =
    authenticate-pair engine codes hub 30 (1 ∷ 2 ∷ 3 ∷ []) (some (10 ∷ 255 ∷ [])) " code-1234"
      "Phone " "AQID" phone db paired true refl (omega arith) refl pair-phone refl

abbrev answered : Result (LocalClient × String)
answered = ok (phone, "AQID")

pair_example :
    ((paired ≡ db) × ((e : Error) × (answered ≡ err e)))
    ⊎ ((bytes : List ℕ) × (client : LocalClient) × (◌≡◌ {A = Option (List ℕ)}
          (some (1 ∷ 2 ∷ 3 ∷ []))
          (some bytes))
        × (trim_space " code-1234" ≡ "code-1234")
        × (trim_space "Phone " ≢ "")
        × (client.name ≡ trim_space "Phone ")
        × (client.token_hash ≡ hash_token codes hub (base64 bytes))
        × (client.created_at ≡ 30)
        × (client.last_used ≡ 30)
        × (((create_local_client engine client db ≡ (ok tt, paired))
              × (answered ≡ ok (client, base64 bytes)))
            ⊎ ((e : Error) × (create_local_client engine client db ≡ (err e, paired))
                × (answered ≡ err e))))
pair_example =
    pair_lem codes hub 30 (some (1 ∷ 2 ∷ 3 ∷ [])) (some (10 ∷ 255 ∷ [])) " code-1234" "Phone " db
      paired answered pair-phone

authenticate_example :
    ((authenticate codes hub "AQID" paired).0 ≡ fail unauthorized)
    ⊎ ((client : LocalClient) × (s1 : Db) × (trim_space "AQID" ≢ "")
        × (hub.store.get_local_client_by_token_hash
              (hash_token codes hub (trim_space "AQID"))
              paired
            ≡ (ok client, s1))
        × ((authenticate codes hub "AQID" paired).0 ≡ ok client)
        × ((authenticate codes hub "AQID" paired).1
            ≡ (hub.store.touch_local_client client.id s1).1))
authenticate_example =
    authenticate_lem codes hub "AQID" paired (authenticate codes hub "AQID" paired).1
      (authenticate codes hub "AQID" paired).0 refl
