-- ===== src/Storage/Engine.antt =====
-- database/sql over the SQLite driver, which is no part of the repository: whether the n-th statement
-- fails, and the connection of the pool on which it runs, are the engine's. `Open` switches foreign
-- keys on by one statement, on one connection.
use manisa_app.Prelude.{ℕ, ◌+◌, ◌≡◌, refl, String, Bool, Option, none, some, arith}
use manisa_app.Domain.{Time}
use manisa_app.Domain.Error.{Exec, Result, ok, err, message}
use manisa_app.Storage.Tables.{Tables}
use manisa_app.Value.{Value}

pub data Outcome : Type 0 where
  -- the driver's error; nothing is changed
  failed : String → Outcome
  -- the statement runs, on a connection with or without foreign_keys
  ran : (foreign_keys : Bool) → Outcome

-- What the store takes from outside: the driver, the clock at each statement, and the packages time
-- and encoding/json.
pub record Engine (F : Type 0) : Type 0 where
  pub outcome : ℕ → Outcome
  pub clock : ℕ → Time
  -- t.UTC().Format(time.RFC3339Nano), and time.Parse of it; the zero time for an error
  pub format_time : Time → String
  pub parse_time : String → Time
  -- json.Marshal and json.Unmarshal, `none` for an error
  pub marshal : Value F → Option String
  pub unmarshal : String → Option (Value F)

pub record Db : Type 0 where
  pub tables : Tables
  -- the number of statements that were run
  pub statements : ℕ

module _ {F : Type 0} (engine : Engine F) where
  abbrev pub settle_statement :
      Outcome → (Bool → Tables → Option Tables) → Tables → ℕ → Result (Unit {0}) × Db
  settle_statement (failed text) statement t n =
      (err (message text), record { tables = t; statements = n })
  settle_statement (ran fk) statement t n = elim (statement fk t) [
    | none ↦ (err (message "constraint failed"), record { tables = t; statements = n })
    | some t' ↦ (ok tt, record { tables = t'; statements = n })
  ]

  -- db.ExecContext
  unfoldable pub exec : (Bool → Tables → Option Tables) → Exec Db Unit
  exec statement db =
      settle_statement (engine.outcome db.statements) statement db.tables (db.statements + 1)

  abbrev pub answer : {A : Type 0} → Outcome → (Tables → A) → Tables → ℕ → Result A × Db
  answer (failed text) select t n = (err (message text), record { tables = t; statements = n })
  answer (ran fk) select t n = (ok (select t), record { tables = t; statements = n })

  -- db.QueryContext with the reading of its rows
  unfoldable pub query : {A : Type 0} → (Tables → A) → Exec Db A
  query select db = answer (engine.outcome db.statements) select db.tables (db.statements + 1)

  -- A statement that succeeded has run, and met no constraint.
  pub exec_ok :
      (statement : Bool → Tables → Option Tables) (db db' : Db)
      → exec statement db ≡ (ok tt, db')
      → (fk : Bool) × (engine.outcome db.statements ≡ ran fk)
        × (statement fk db.tables ≡ some db'.tables)
        × (db'.statements ≡ db.statements + 1)
  unfolding exec
  exec_ok statement db db' h = by_outcome (engine.outcome db.statements) refl
    where
      by_outcome :
          (o : Outcome)
          → engine.outcome db.statements ≡ o
          → (fk : Bool) × (engine.outcome db.statements ≡ ran fk)
            × (statement fk db.tables ≡ some db'.tables)
            × (db'.statements ≡ db.statements + 1)
      by_outcome (failed text) e = ground arith
      by_outcome (ran fk) e = (fk, e, ground arith, ground arith)

  -- A statement that runs and meets no constraint succeeds.
  pub exec_ran :
      (statement : Bool → Tables → Option Tables) (db : Db) (t : Tables) (fk : Bool)
      → engine.outcome db.statements ≡ ran fk
      → statement fk db.tables ≡ some t
      → exec statement db ≡ (ok tt, record { tables = t; statements = db.statements + 1 })
  unfolding exec
  exec_ran statement db t fk e h = rw (e) (ground arith)

  pub query_ran :
      {A : Type 0} (select : Tables → A) (db : Db) (fk : Bool)
      → engine.outcome db.statements ≡ ran fk
      → query select db ≡ (ok (select db.tables), record db { statements = db.statements + 1 })
  unfolding query
  query_ran select db fk e = rw e refl
