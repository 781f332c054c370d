-- ===== src/Application/Keeps.antt =====
-- Invariants of what changes a state, one rule for each way to build a method.
pub mod Stores
pub mod Methods
use manisa_app.Prelude.{String, Bool, true, false, Option, none, some, if◌then◌else◌}
use manisa_app.Domain.Error.{Sentinel, Exec, Result, ok, err}
use manisa_app.Application.World.{pure, lift, raise, ◌>>=◌, attempt, wrapping}

-- `m` keeps `I`, whatever it answers, an error or not.
pub record Keeps {W A : Type 0} (I : W → Type 0) (m : W → A × W) : Type 0 where
  pub at : (w : W) → I w → I (m w).1

module _ {W : Type 0} {I : W → Type 0} where
  pub Keeps-pure : {A : Type 0} (a : A) → Keeps I (pure a)
  Keeps-pure a = record { at = λ w h. h }

  pub Keeps-lift : {A : Type 0} (r : Result A) → Keeps I (lift r)
  Keeps-lift r = record { at = λ w h. h }

  pub Keeps-raise : {A : Type 0} (s : Sentinel) → Keeps I (raise {A = A} s)
  Keeps-raise s = record { at = λ w h. h }

  pub Keeps-if :
      {A : Type 0} (b : Bool) (m n : W → A × W)
      → Keeps I m
      → Keeps I n
      → Keeps I (if b then m else n)
  Keeps-if true m n km kn = km
  Keeps-if false m n km kn = kn

  pub Keeps-option :
      {A B : Type 0} (o : Option A) (m : W → B × W) (f : A → W → B × W)
      → Keeps I m
      → ((a : A) → Keeps I (f a))
      → Keeps {A = B} I (elim o [ none ↦ m | some a ↦ f a ])
  Keeps-option none m f km kf = km
  Keeps-option (some a) m f km kf = kf a

  Keeps-bind-lift :
      {A B : Type 0} (r : Result A) (f : A → Exec W B)
      → ((a : A) → Keeps I (f a))
      → Keeps I (lift r >>= f)
  Keeps-bind-lift (ok a) f kf = kf a
  Keeps-bind-lift (err e) f kf = Keeps-lift (err e)

  pub Keeps-bind :
      {A B : Type 0} (m : Exec W A) (f : A → Exec W B)
      → Keeps I m
      → ((a : A) → Keeps I (f a))
      → Keeps I (m >>= f)
  Keeps-bind m f km kf = record {
    at = λ w h. let (r, w') = m w in (Keeps-bind-lift r f kf).at w' (km.at w h);
  }

  pub Keeps-attempt : {A : Type 0} (m : Exec W A) → Keeps I m → Keeps I (attempt m)
  Keeps-attempt m k = record { at = k.at }

  pub Keeps-wrapping :
      {A : Type 0} (text : String) (m : Exec W A) → Keeps I m → Keeps I (wrapping text m)
  Keeps-wrapping text m k = record { at = k.at }

pub ruleset keeps_rules =
    (Keeps-pure, Keeps-lift, Keeps-raise, Keeps-if, Keeps-bind, Keeps-attempt, Keeps-wrapping)
