-- ===== src/System/Boot.antt =====
-- The start of cmd/manisa-core/main.go, up to the parts that it makes: what fails ends the program.
use manisa_app.Prelude.{◌≡◌, refl, ◌⊎◌, inl, inr, String, Bool, true, false, List, All, ap, some}
use manisa_app.Float.{Float64}
use manisa_app.Domain.Error.{Result, ok, err, Error}
use manisa_app.Application.World.{World, Result-cases}
use manisa_app.Storage.Tables.{Tables}
use manisa_app.Storage.Engine.{Engine, Db}
use manisa_app.Storage.Open.{Setup, pragmas, open_database, open_database_lem}
use manisa_app.Process.Config.{Config, load}
use manisa_app.Matterjs.Wire.{Dial, Net}
use manisa_app.Process.Lifecycle.{Process, Life, entered}
use manisa_app.Process.Lifecycle.Orderly.{Released, Life-Released, Life-ended}
use manisa_app.System.{started}

module _ {F : Type 0} ⦃fl : Float64 F⦄ (engine : Engine F) where
  -- The configuration and the world at the start, and whether the database is left open.
  unfoldable pub boot :
      (String → String)
      → Setup
      → String
      → Tables
      → List Dial
      → Result (Config × World Db (Net F) F) × Bool
  boot environment setup schema t dials = elim (load environment) [
    | err e ↦ (err e, false)
    | ok config ↦
        let (r, is_open) = open_database setup schema t in
        elim r [
          | err e ↦ (err e, is_open)
          | ok tables ↦ (ok (config, started engine tables dials), is_open)
        ]
  ]

  -- The program starts in one of two ways: the configuration is accepted, every step of opening the
  -- database has succeeded, the three pragmas and the schema's statements included, and the parts
  -- stand over the tables of the file; or an error ends it, and no database is left open.
  pub boot_lem :
      (environment : String → String) (setup : Setup) (schema : String) (t : Tables)
      (dials : List Dial)
      → ((config : Config) × (load environment ≡ ok config)
          × (boot environment setup schema t dials ≡ (ok (config, started engine t dials), true))
          × All (λ statement. setup.exec statement ≡ ok tt) pragmas
          × (setup.exec schema ≡ ok tt))
        ⊎ ((e : Error) × (boot environment setup schema t dials ≡ (err e, false)))
  unfolding boot
  boot_lem environment setup schema t dials = elim (Result-cases (load environment)) [
    | inr (e, refused) ↦ inr (e, rw (boot, refused) refl)
    | inl (config, accepted) ↦ elim (open_database_lem setup schema t) [
      | inr (e, refused) ↦ inr (e, rw (boot, accepted, refused, refused) refl)
      | inl (opens, set, made) ↦
          inl (config, accepted, rw (boot, accepted, opens, opens) refl, set, made)
    ]
  ]

  -- The process goes in one of two ways from its start: the configuration is accepted, every step of
  -- opening the database has succeeded, the three pragmas and the schema's statements included, and
  -- whatever happens then, main lets go of its parts in order; or an error ends it at once with
  -- status 1, and no database is left open.
  pub boot-Released :
      (environment : String → String) (setup : Setup) (schema : String) (t : Tables)
      (dials : List Dial) (p : Process)
      → Life (entered (boot environment setup schema t dials)) p
      → ((config : Config) × (load environment ≡ ok config)
          × (boot environment setup schema t dials ≡ (ok (config, started engine t dials), true))
          × All (λ statement. setup.exec statement ≡ ok tt) pragmas
          × (setup.exec schema ≡ ok tt)
          × Released p)
        ⊎ ((e : Error) × (boot environment setup schema t dials ≡ (err e, false))
            × (p.exit ≡ some 1)
            × (p.db_open ≡ false))
  boot-Released environment setup schema t dials p life =
      elim (boot_lem environment setup schema t dials) [
        | inl (config, accepted, begins, set, migrated) ↦
            inl (config, accepted, begins, set, migrated, Life-Released p (rw begins at life))
        | inr (e, failed) ↦
            let same = Life-ended 1 (rw failed at life) refl in
            inr (e, failed, ap (λ (q : Process). q.exit) same, ap (λ (q : Process). q.db_open) same)
      ]
