-- ===== src/Application/Simulates.antt =====
-- What has the same answers as another program over another state, one rule for each way to build a
-- method.
pub mod Stores
pub mod Methods
use manisa_app.Prelude.{String, ◌≡◌, refl, ap, Bool, true, false, Option, none, some, if◌then◌else◌}
use manisa_app.Domain.Error.{Sentinel, Exec, Result, ok, err, wrap}
use manisa_app.Application.World.{pure, lift, raise, ◌>>=◌, attempt, wrapping}

-- From states in the relation `m` and `n` give the same answer, an error or not, and states in the
-- relation.
pub record Simulates {W V A : Type 0} (R : W → V → Type 0) (m : W → A × W) (n : V → A × V)
    : Type 0 where
  pub at : (w : W) (v : V) → R w v → ((m w).0 ≡ (n v).0) × R (m w).1 (n v).1

module _ {W V : Type 0} {R : W → V → Type 0} where
  pub Simulates-pure : {A : Type 0} (a : A) → Simulates R (pure a) (pure a)
  Simulates-pure a = record { at = λ w v h. (refl, h) }

  pub Simulates-lift : {A : Type 0} (r : Result A) → Simulates R (lift r) (lift r)
  Simulates-lift r = record { at = λ w v h. (refl, h) }

  pub Simulates-raise : {A : Type 0} (s : Sentinel) → Simulates R (raise {A = A} s) (raise s)
  Simulates-raise s = record { at = λ w v h. (refl, h) }

  pub Simulates-if :
      {A : Type 0} (b : Bool) (m m' : W → A × W) (n n' : V → A × V)
      → Simulates R m n
      → Simulates R m' n'
      → Simulates R (if b then m else m') (if b then n else n')
  Simulates-if true m m' n n' k k' = k
  Simulates-if false m m' n n' k k' = k'

  pub Simulates-option :
      {A B : Type 0} (o : Option A) (m : W → B × W) (f : A → W → B × W) (n : V → B × V)
      (g : A → V → B × V)
      → Simulates R m n
      → ((a : A) → Simulates R (f a) (g a))
      → Simulates {A = B} R
          (elim o [ none ↦ m | some a ↦ f a ])
          (elim o [ none ↦ n | some a ↦ g a ])
  Simulates-option none m f n g k ks = k
  Simulates-option (some a) m f n g k ks = ks a

  Simulates-bind-lift :
      {A B : Type 0} (r : Result A) (f : A → Exec W B) (g : A → Exec V B)
      → ((a : A) → Simulates R (f a) (g a))
      → Simulates R (lift r >>= f) (lift r >>= g)
  Simulates-bind-lift (ok a) f g k = k a
  Simulates-bind-lift (err e) f g k = Simulates-lift (err e)

  pub Simulates-bind :
      {A B : Type 0} (m : Exec W A) (n : Exec V A) (f : A → Exec W B) (g : A → Exec V B)
      → Simulates R m n
      → ((a : A) → Simulates R (f a) (g a))
      → Simulates R (m >>= f) (n >>= g)
  Simulates-bind m n f g k ks = record {
    at = λ w v h.
        let (same, related) = k.at w v h in
        rw same ((Simulates-bind-lift (n v).0 f g ks).at (m w).1 (n v).1 related);
  }

  pub Simulates-attempt :
      {A : Type 0} (m : Exec W A) (n : Exec V A)
      → Simulates R m n
      → Simulates R (attempt m) (attempt n)
  Simulates-attempt m n k = record {
    at = λ w v h. let (same, related) = k.at w v h in (ap ok same, related);
  }

  pub Simulates-wrapping :
      {A : Type 0} (text : String) (m : Exec W A) (n : Exec V A)
      → Simulates R m n
      → Simulates R (wrapping text m) (wrapping text n)
  Simulates-wrapping text m n k = record {
    at = λ w v h. let (same, related) = k.at w v h in (ap (wrap text) same, related);
  }

pub ruleset simulates_rules = (
  Simulates-pure, Simulates-lift, Simulates-raise, Simulates-if, Simulates-bind, Simulates-attempt,
  Simulates-wrapping,
)
