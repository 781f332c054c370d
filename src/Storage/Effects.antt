-- ===== src/Storage/Effects.antt =====
-- What is done to the tables as a sequence of statements, each on a connection that the engine gives it.
use manisa_app.Prelude.{ℕ, ◌≡◌, Bool, List, [], ◌∷◌, All}
use manisa_app.Application.Keeps.Stores.{Preserves}
use manisa_app.Application.Shared.{Shared, share, IsShared, share-Preserves}
use manisa_app.Storage.Tables.{Tables}
use manisa_app.Storage.Engine.{Engine, Db, ran}
use manisa_app.Storage.Statements.{Statement}
use manisa_app.Storage.States.{new_store}
use manisa_app.Storage.Keeping.{new_store-Preserves}

module _ {F : Type 0} (engine : Engine F) where
  pub data Effects (t : Tables) : Tables → Type 0 where
    start : Effects t t
    next :
        (n : ℕ) (fk : Bool) {u v : Tables}
        → Effects t u
        → engine.outcome n ≡ ran fk
        → Statement fk u v
        → Effects t v

  pub Effects-trans : {t u v : Tables} → Effects t u → Effects u v → Effects t v
  Effects-trans a start = a
  Effects-trans a (next n fk b runs s) = next n fk (Effects-trans a b) runs s

  -- What every statement that runs keeps is kept.
  pub Effects-keep :
      (P : Tables → Type 0)
      → ((n : ℕ) (fk : Bool) (t t' : Tables)
          → engine.outcome n ≡ ran fk
          → Statement fk t t'
          → P t
          → P t')
      → {t u : Tables} → Effects t u
      → P t
      → P u
  Effects-keep P keeps start h = h
  Effects-keep P keeps (next n fk before runs s) h =
      keeps n fk _ _ runs s (Effects-keep P keeps before h)

  -- something that is done to the database by statements only
  abbrev pub ByStatements : (Db → Db) → Type 0
  ByStatements f = (db : Db) → Effects db.tables (f db).tables

  module _ (P : Tables → Type 0)
      (keeps : (n : ℕ) (fk : Bool) (t t' : Tables)
        → engine.outcome n ≡ ran fk
        → Statement fk t t'
        → P t
        → P t') where
    abbrev pub Shares : Shared Db → Type 0
    Shares = IsShared (λ db. P db.tables)

    pub others-keep :
        (others : List (Db → Db))
        → All ByStatements others
        → All (λ (f : Db → Db). (db : Db) → P db.tables → P (f db).tables) others
    others-keep [] by = tt
    others-keep (f ∷ fs) (by, rest) = (λ db h. Effects-keep P keeps (by db) h, others-keep fs rest)

    -- The store that others use too keeps what every statement keeps.
    pub shared_store-Preserves : Preserves (share (new_store engine)) Shares
    shared_store-Preserves = share-Preserves (new_store engine) (new_store-Preserves engine P keeps)

  -- What the store's own methods do is done by statements.
  pub new_store-Effects : (t : Tables) → Preserves (new_store engine) (λ db. Effects t db.tables)
  new_store-Effects t =
      new_store-Preserves engine (Effects t)
        (λ n fk u v runs done before. next n fk before runs done)
