-- ===== src/Storage/Open.antt =====
-- internal/storage/sqlite/sqlite.go: opening the database. The directory, the driver and the
-- statements end as the arguments say; the schema's statements make what is missing and leave what
-- there is.
use manisa_app.Prelude.{
  ◌≡◌, refl, ◌⊎◌, inl, inr, String, Bool, true, false, List, [], ◌∷◌, All, arith,
}
use manisa_app.Domain.Error.{Result, ok, err, Error, wrap, wrapped}
use manisa_app.Application.World.{Result-cases}
use manisa_app.Storage.Tables.{Tables}

pub record Setup : Type 0 where
  pub mkdir_all : Result (Unit {0})
  pub connect : Result (Unit {0})
  pub exec : String → Result (Unit {0})

abbrev pub pragmas : List String
pragmas = "PRAGMA journal_mode=WAL;" ∷ "PRAGMA foreign_keys=ON;" ∷ "PRAGMA busy_timeout=5000;" ∷ []

-- the loop over the pragmas
unfoldable pub run_pragmas : Setup → List String → Result (Unit {0})
run_pragmas setup [] = ok tt
run_pragmas setup (statement ∷ more) =
    let rest = run_pragmas setup more in
    elim (setup.exec statement) [ err e ↦ err (wrapped "sqlite pragma" e) | ok done ↦ rest ]

-- migrate, the text of the schema given
unfoldable pub migrate : Setup → String → Result (Unit {0})
migrate setup schema = wrap "apply schema" (setup.exec schema)

-- What Open answers, and whether a handle is left open.
abbrev pub or_close : Result (Unit {0}) → Result Tables × Bool → Result Tables × Bool
or_close (err e) next = (err e, false)
or_close (ok done) next = next

-- Open, of a file with the tables `t`, which are empty if it is new
unfoldable pub open_database : Setup → String → Tables → Result Tables × Bool
open_database setup schema t = elim setup.mkdir_all [
  | err e ↦ (err (wrapped "create database directory" e), false)
  | ok made ↦ elim setup.connect [
    | err e ↦ (err e, false)
    | ok connected ↦
        or_close (run_pragmas setup pragmas) (or_close (migrate setup schema) (ok t, true))
  ]
]

pragmas_ok :
    (setup : Setup) (statements : List String)
    → run_pragmas setup statements ≡ ok tt
    → All (λ statement. setup.exec statement ≡ ok tt) statements
unfolding run_pragmas
pragmas_ok setup [] h = tt
pragmas_ok setup (statement ∷ more) h = elim (Result-cases (setup.exec statement)) [
  | inr (e, failed) ↦ ground arith
  | inl (done, ran) ↦ (ran, pragmas_ok setup more (ground arith))
]

-- Opening ends in one of two ways: every step has succeeded, the three pragmas and the schema's
-- statements included, the tables of the file are there and a handle is open; or it is refused, and
-- no handle is left open.
pub open_database_lem :
    (setup : Setup) (schema : String) (t : Tables)
    → ((open_database setup schema t ≡ (ok t, true))
        × All (λ statement. setup.exec statement ≡ ok tt) pragmas
        × (setup.exec schema ≡ ok tt))
      ⊎ ((e : Error) × (open_database setup schema t ≡ (err e, false)))
unfolding open_database migrate
open_database_lem setup schema t = elim (Result-cases setup.mkdir_all) [
  | inr (e, h) ↦ inr (wrapped "create database directory" e, rw (open_database, h) refl)
  | inl (made, h) ↦ elim (Result-cases setup.connect) [
    | inr (e, c) ↦ inr (e, rw (open_database, h, c) refl)
    | inl (connected, c) ↦ elim (Result-cases (run_pragmas setup pragmas)) [
      | inr (e, p) ↦ inr (e, rw (open_database, h, c, p) refl)
      | inl (set, p) ↦ elim (Result-cases (setup.exec schema)) [
        | inr (e, m) ↦ inr (wrapped "apply schema" e, rw (open_database, h, c, p, migrate, m) refl)
        | inl (made_tables, m) ↦
            inl (rw (open_database, h, c, p, migrate, m) refl, pragmas_ok setup pragmas p, m)
      ]
    ]
  ]
]
