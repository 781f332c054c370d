-- ===== src/Tests/Start.antt =====
-- What runs when the program starts: the configuration, the database, the loop that listens and the
-- advertisement.
use manisa_app.Prelude.{
  ℕ, suc, true, false, ◌⊎◌, ◌*◌, ◌≤◌, ◌≡◌, ◌≢◌, refl, eq_iff, Option, some, Bool, String, List, [],
  ◌∷◌, ◌==◌, ◌++◌, arith, if◌then◌else◌, All, length,
}
use manisa_app.Text.Trim.{trim_space}
use manisa_app.Platform.Id.{new_id, hex_encode}
use manisa_app.Storage.Engine.{Db}
use manisa_app.Storage.States.{new_store}
use manisa_app.Process.Config.{Config, byte_length, getenv, load, Answered, load_lem}
use manisa_app.Process.Backoff.{
  second, max_backoff, Round, run_matter_events, pauses_between, run_matter_events_ends,
}
use Prim.Native.String
use manisa_app.Domain.Error.{Exec, ok, err, Error, message, wrap}
use manisa_app.Text.Number.{format_uint}
use manisa_app.Process.Discovery.{start, start-address}
use manisa_app.Storage.Open.{Setup, pragmas, run_pragmas, open_database, migrate}
use manisa_app.System.{started}
use manisa_app.System.Boot.{boot, boot-Released}
use manisa_app.Process.Lifecycle.{
  Process, advertises, shut, main_step, made, calls, starts, next, finish,
}
use manisa_app.Process.Lifecycle.Orderly.{Released}
use manisa_app.Process.Lifecycle.Ending.{finish_ends}
use manisa_app.Float.Ratio.{ratio}
use manisa_app.Tests.Fixture.{tables, engine}
use manisa_app.Tests.Auth.{codes}

abbrev environment : String → String
environment key =
    if key == "MANISA_PAIRING_CODE"
    then " code-1234 "
    else if key == "MANISA_HTTP_ADDR"
    then ":9090"
    else ""

abbrev config : Config
config = record {
  http_addr = ":9090";
  database_path = "./data/manisa.db";
  matter_ws_url = "ws://127.0.0.1:5580/ws";
  pairing_code = "code-1234";
}

abbrev random : Option (List ℕ)
random = some (10 ∷ 255 ∷ [])

abbrev nobody : Db
nobody = record { tables = tables; statements = 0 }

load_example :
    (8 ≤ byte_length "code-1234")
    × (config.http_addr ≢ "")
    × (config.database_path ≢ "")
    × (config.matter_ws_url ≢ "")
    × Answered codes
        (new_store engine)
        config
        environment
        30
        (1 ∷ 2 ∷ 3 ∷ [])
        random
        "client_0aff"
        "code-1234"
        "Phone "
        nobody
unfolding load getenv trim_space byte_length new_id hex_encode
load_example =
    load_lem environment config codes (new_store engine) 30 (1 ∷ 2 ∷ 3 ∷ []) random "client_0aff"
      "code-1234" "Phone " nobody refl refl (ground (arith, eq_iff "Phone" ""))

-- a source that fails at once, and counts
abbrev source : Exec ℕ Unit
source runs = (err (message "connection"), suc runs)

abbrev round : ℕ → Round
round took = record { took = took; stopped = false; stopped_waiting = false }

abbrev rounds : List Round
rounds =
    round 5
    ∷ round 5
    ∷ round (61 * second)
    ∷ record { took = 5; stopped = false; stopped_waiting = true }
    ∷ []

pauses_between_example :
    All (λ p. (second ≤ p) × (p ≤ max_backoff)) (run_matter_events source second rounds 0).0
pauses_between_example = pauses_between source second rounds 0 (omega arith) (omega arith)

run_matter_events_ends_example :
    let ended = run_matter_events source second (rounds ++ round 7 ∷ []) 0 in
    (ended ≡ run_matter_events source second rounds 0) × (ended.1 ≡ 4) × (length ended.0 ≡ 4)
run_matter_events_ends_example =
    run_matter_events_ends source second (round 5 ∷ round 5 ∷ round (61 * second) ∷ [])
      (record { took = 5; stopped = false; stopped_waiting = true }) (round 7 ∷ []) 0
      ((refl, refl), ((refl, refl), ((refl, refl), tt))) refl

start-address_example :
    start {A = ℕ} (λ r. ok r.port) " hub " (String.◌++◌ "" (String.◌∷◌ ":" (format_uint 8080)))
    ≡ wrap "advertise Manisa hub over mDNS" (ok 8080)
start-address_example =
    start-address {A = ℕ} (λ r. ok r.port) " hub " "" 8080 (tt, tt, tt) (omega arith) (omega arith)

abbrev setup : Setup
setup = record { mkdir_all = ok tt; connect = ok tt; exec = λ statement. ok tt }

-- The signal comes, and the last request is not over when Shutdown gives up.
abbrev outcomes : List Bool
outcomes = true ∷ true ∷ true ∷ true ∷ false ∷ true ∷ true ∷ true ∷ true ∷ []

abbrev stopped : Process
stopped = finish outcomes made

boots :
    boot engine environment setup "schema" tables [] ≡ (ok (config, started engine tables []), true)
unfolding boot load getenv trim_space byte_length open_database run_pragmas migrate
boots = refl

boot-Released_example :
    ((c : Config) × (load environment ≡ ok c)
      × (boot engine environment setup "schema" tables []
          ≡ (ok (c, started engine tables []), true))
      × All (λ statement. setup.exec statement ≡ ok tt) pragmas
      × (setup.exec "schema" ≡ ok tt)
      × Released (main_step advertises true made))
    ⊎ ((e : Error) × (boot engine environment setup "schema" tables [] ≡ (err e, false))
        × ((main_step advertises true made).exit ≡ some 1)
        × ((main_step advertises true made).db_open ≡ false))
boot-Released_example =
    boot-Released engine environment setup "schema" tables [] (main_step advertises true made)
      (rw boots (next starts (calls true refl)))

finish_ends_example :
    (stopped.exit ≡ some 0)
    × (stopped.db_open ≡ false)
    × (stopped.server ≡ shut)
    × (stopped.cancelled ≡ true)
    × (stopped.advertised ≡ false)
finish_ends_example = finish_ends outcomes made starts refl (omega arith)

-- Requests may be left unfinished.
stopped_unfinished : stopped.unfinished ≡ true
unfolding finish main_step
stopped_unfinished = refl
