-- ===== src/Tests/Interleaved.antt =====
-- Runs of the whole system in which others have statements run in between.
use manisa_app.Prelude.{true, ◌≡◌, refl, String, some, none, List, [], ◌∷◌, arith, All}
use manisa_app.Float.Ratio.{Ratio, ratio}
use manisa_app.Domain.{Home}
use manisa_app.Domain.Error.{ok}
use manisa_app.Text.Trim.{trim_space}
use manisa_app.Text.Split.{has_prefix, trim_prefix}
use manisa_app.Text.Base64.{base64}
use manisa_app.Platform.Id.{new_id, hex_encode}
use manisa_app.Application.EventBus.Delivery.{IsReady}
use manisa_app.Application.EventBus.Ready.{new-IsReady}
use manisa_app.Application.Shared.{Shared}
use manisa_app.Application.World.{World}
use manisa_app.Application.Attributes.{apply_matter_attribute}
use manisa_app.Storage.Engine.{Db, exec}
use manisa_app.Storage.Tables.{empty_tables, insert_client, insert_home}
use manisa_app.Storage.Sqlite.{create_home}
use manisa_app.Storage.States.{create_local_client}
use manisa_app.Storage.Integrity.{IsKeyed, Reach-IsKeyed}
use manisa_app.Storage.References.{IsLinked, Reach-IsLinked}
use manisa_app.Storage.Statements.{migrated}
use manisa_app.Storage.Effects.{Effects, start, ByStatements, new_store-Effects}
use manisa_app.HttpApi.Requests.{Request}
use manisa_app.HttpApi.Handlers.{Env, failure, serve, serve_mux, bearer}
use manisa_app.Auth.{pair}
use manisa_app.Matterjs.Wire.{Net}
use manisa_app.System
use manisa_app.System.{Run}
use manisa_app.System.Interleaved.{
  shared_app, shared_auth, shared_start, Run-IsKeyed_shared, Run-IsLinked_shared,
}
use manisa_app.System.Interleaved.Paired.{paired_client_served_shared}
use manisa_app.Tests.Fixture.{engine, switched_on}
use manisa_app.Tests.Auth.{codes, phone}
use manisa_app.Tests.Server.{json}
use manisa_app.Tests.Api.{codec}

abbrev env : Env (Shared Db) Ratio
env = record {
  codec = record codec {
    pair_request = λ bytes cut. some (record { code = "code-1234"; client_name = "Phone" });
  };
  sum = codes;
  ping = λ db. true;
  accept = λ req. none;
  unmatched = λ req. (404, failure "");
  now = 40;
  random = some (9 ∷ []);
  raw = some (1 ∷ 2 ∷ 3 ∷ []);
}

abbrev post : String → Request
post path = record {
  method = "POST";
  path = path;
  home_id = "";
  authorization = "Bearer AQID";
  body = 0x7b ∷ 0x7d ∷ [];
}

-- Meanwhile another request makes a home.
abbrev home : String → Home
home id = record { id = id; name = "Loft"; created_at = 3; updated_at = 3 }

abbrev other : String → Db → Db
other id db = (create_home engine (home id) db).1

other-ByStatements : (id : String) → ByStatements engine (other id)
other-ByStatements id db = ((new_store-Effects engine db.tables).create_home (home id)).at db start

abbrev others : List (Db → Db)
others = other "home_1" ∷ other "home_2" ∷ other "home_3" ∷ []

others-ByStatements : All (ByStatements engine) others
others-ByStatements =
    (other-ByStatements "home_1", (other-ByStatements "home_2", (other-ByStatements "home_3", tt)))

abbrev begun : World (Shared Db) (Net Ratio) Ratio
begun = shared_start engine empty_tables [] others

abbrev housed : World (Shared Db) (Net Ratio) Ratio
housed =
    (serve (shared_app engine json) (shared_auth engine "code-1234") env (post "/api/v1/homes")
      begun).1

abbrev reported : World (Shared Db) (Net Ratio) Ratio
reported = (apply_matter_attribute (shared_app engine json) 50 switched_on housed).1

reported-Run : Run (shared_app engine json) (shared_auth engine "code-1234") begun reported
reported-Run =
    System.next (System.next System.start (System.serves env (post "/api/v1/homes") begun))
      (System.reports 50 switched_on housed)

empty-IsKeyed : IsKeyed empty_tables
empty-IsKeyed = Reach-IsKeyed {fk = true} migrated

empty-IsLinked : IsLinked empty_tables
empty-IsLinked = Reach-IsLinked migrated

Run-IsKeyed_shared_example : IsKeyed reported.db.state.tables × IsReady reported.events
Run-IsKeyed_shared_example =
    Run-IsKeyed_shared engine json "code-1234" empty_tables [] others reported empty-IsKeyed
      others-ByStatements reported-Run

Run-IsLinked_shared_example : IsLinked reported.db.state.tables
Run-IsLinked_shared_example =
    Run-IsLinked_shared engine json "code-1234" empty_tables [] others reported empty-IsLinked
      (λ n fk runs. ground arith) others-ByStatements reported-Run

-- A phone is paired while another makes a home.
abbrev paired_db : Shared Db
paired_db =
    (pair codes (shared_auth engine "code-1234") 30 (some (1 ∷ 2 ∷ 3 ∷ [])) (some (10 ∷ 255 ∷ []))
      " code-1234" "Phone " begun.db).1

abbrev with_phone : World (Shared Db) (Net Ratio) Ratio
with_phone = record begun { db = paired_db }

abbrev later : World (Shared Db) (Net Ratio) Ratio
later = (apply_matter_attribute (shared_app engine json) 50 switched_on with_phone).1

rest-ByStatements : All (ByStatements engine) paired_db.others
unfolding pair create_local_client create_home exec insert_client insert_home base64 new_id
    hex_encode trim_space
rest-ByStatements = (other-ByStatements "home_2", (other-ByStatements "home_3", tt))

phone-pair :
    pair codes
      (shared_auth engine "code-1234")
      30
      (some (1 ∷ 2 ∷ 3 ∷ []))
      (some (10 ∷ 255 ∷ []))
      " code-1234"
      "Phone "
      begun.db
    ≡ (ok (phone, "AQID"), paired_db)
unfolding pair create_local_client create_home exec insert_client insert_home base64 new_id
    hex_encode trim_space
phone-pair = refl

paired_client_served_shared_example :
    (db' : Shared Db) × Effects engine paired_db.state.tables db'.state.tables
    × (serve
          (shared_app engine json)
          (shared_auth engine "code-1234")
          env
          (post "/api/v1/homes")
          later
        ≡ serve_mux
            (shared_app engine json)
            (shared_auth engine "code-1234")
            env
            (post "/api/v1/homes")
            (record later { db = db' }))
unfolding bearer trim_space has_prefix trim_prefix
paired_client_served_shared_example =
    paired_client_served_shared engine json "code-1234" (λ n. (true, refl)) env
      (post "/api/v1/homes") 30 (1 ∷ 2 ∷ 3 ∷ []) (some (10 ∷ 255 ∷ [])) " code-1234" "Phone " "AQID"
      phone begun later paired_db new-IsReady (omega arith) phone-pair rest-ByStatements
      (System.next System.start (System.reports 50 switched_on with_phone)) refl refl
