-- ===== src/Application/World.antt =====
-- The service of internal/application/service.go: the state that its methods change, and the monad
-- in which they are written.
use manisa_app.Prelude.{ℕ, ℤ, String, Option, ◌⊎◌, inl, inr, ◌≡◌, refl}
use manisa_app.Domain.Store.{Store}
use manisa_app.Domain.Error.{Result, ok, err, Error, Sentinel, sentinel, Exec, wrap}
use manisa_app.Matter.{Controller}
use manisa_app.Application.EventBus.{EventBus, subscribe}

-- The store, the Matter controller (nil if there is none) and the event bus: `S` and `C` are the
-- types of the first two's states.
pub record Service (S C F : Type 0) : Type 0 where
  pub store : Store S F
  pub matter : Option (Controller C F)

-- New, but for its event bus
abbrev pub new_service : {S C F : Type 0} → Store S F → Option (Controller C F) → Service S C F
new_service store matter = record { store = store; matter = matter }

pub record World (S C F : Type 0) : Type 0 where
  pub db : S
  pub fabric : C
  pub events : EventBus F

module _ {W : Type 0} where
  abbrev pub pure : {A : Type 0} → A → Exec W A
  pure a w = (ok a, w)

  abbrev pub lift : {A : Type 0} → Result A → Exec W A
  lift r w = (r, w)

  abbrev pub raise : {A : Type 0} → Sentinel → Exec W A
  raise s w = (err (sentinel s), w)

  abbrev pub continue : {A B : Type 0} → Result A → (A → Exec W B) → Exec W B
  continue (ok a) f w = f a w
  continue (err e) f w = (err e, w)

  infixl 5 ◌>>=◌ ◌>>◌
  abbrev pub ◌>>=◌ : {A B : Type 0} → Exec W A → (A → Exec W B) → Exec W B
  ◌>>=◌ m f w = let (r, w') = m w in continue r f w'

  abbrev pub ◌>>◌ : {B : Type 0} → Exec W (Unit {0}) → Exec W B → Exec W B
  m >> n = m >>= λ _. n

  -- `if err := …; err != nil` where the error is not returned: it comes back as a value.
  abbrev pub attempt : {A : Type 0} → Exec W A → Exec W (Result A)
  attempt m w = let (r, w') = m w in (ok r, w')

  abbrev pub wrapping : {A : Type 0} → String → Exec W A → Exec W A
  wrapping text m w = let (r, w') = m w in (wrap text r, w')

pub Result-cases {ℓ} :
    {A : Type ℓ} (r : Result A) → ((a : A) × (r ≡ ok a)) ⊎ ((e : Error) × (r ≡ err e))
Result-cases (ok a) = inl (a, refl)
Result-cases (err e) = inr (e, refl)

-- How a method ended, with the equation.
pub Exec-cases :
    {A S : Type 0} (p : Result A × S)
    → ((a : A) × (s : S) × (p ≡ (ok a, s))) ⊎ ((e : Error) × (s : S) × (p ≡ (err e, s)))
Exec-cases (ok a, s) = inl (a, s, refl)
Exec-cases (err e, s) = inr (e, s, refl)

module _ {S C F : Type 0} where
  abbrev pub on_store : {A : Type 0} → Exec S A → Exec (World S C F) A
  on_store m w = let (r, db) = m w.db in (r, record w { db = db })

  abbrev pub on_matter : {A : Type 0} → Exec C A → Exec (World S C F) A
  on_matter m w = let (r, fabric) = m w.fabric in (r, record w { fabric = fabric })

  -- SubscribeEvents: the id of the subscription, for its channel and for unsubscribing
  abbrev pub subscribe_events : ℤ → World S C F → ℕ × World S C F
  subscribe_events buffer w =
      let (id, events) = subscribe buffer w.events in (id, record w { events = events })
