-- ===== src/Storage/Rows.antt =====
-- Facts about rows: what is found after a row was added, and keys that stay unique.
use manisa_app.Prelude.{
  ◌≡◌, refl, Bool, false, ◌||◌, none, some, List, [], ◌∷◌, ◌++◌, arith, any, All, if◌then◌else◌,
}
use manisa_app.Storage.Tables.{find}

module _ {A : Type 0} where
  pub any-concat : (p : A → Bool) (xs : List A) (x : A) → any p (xs ++ x ∷ []) ≡ (any p xs || p x)
  any-concat p [] x = ground arith
  any-concat p (y ∷ xs) x = ground (arith, any-concat p xs x)

  -- A row that was found stays the one that is found.
  pub find-concat :
      (p : A → Bool) (xs : List A) (x : A)
      → find p (xs ++ x ∷ []) ≡ (if any p xs then find p xs else if p x then some x else none)
  find-concat p [] x = refl
  find-concat p (y ∷ xs) x = ground (arith, find-concat p xs x)

  pub find_of_any-false : (p : A → Bool) (xs : List A) → any p xs ≡ false → find p xs ≡ none
  find_of_any-false p [] h = refl
  find_of_any-false p (x ∷ xs) h = ground (arith, find_of_any-false p xs)

  -- No row has the key of a later one.
  abbrev pub Unique : (A → A → Bool) → List A → Type 0
  Unique same [] = Unit
  Unique same (x ∷ xs) = (any (λ y. same x y) xs ≡ false) × Unique same xs

  pub Unique-concat :
      (same : A → A → Bool) (xs : List A) (x : A)
      → Unique same xs
      → any (λ y. same y x) xs ≡ false
      → Unique same (xs ++ x ∷ [])
  Unique-concat same [] x u h = (refl, tt)
  Unique-concat same (y ∷ xs) x u h =
      (ground (arith, any-concat (λ z. same y z) xs x), Unique-concat same xs x u.1 (ground arith))

  pub All-map {κ} : (P Q : A → Type κ) (xs : List A) → ((x : A) → P x → Q x) → All P xs → All Q xs
  All-map P Q [] f h = tt
  All-map P Q (x ∷ xs) f h = (f x h.0, All-map P Q xs f h.1)

  pub All-concat : (P : A → Type 0) (xs : List A) (x : A) → All P xs → P x → All P (xs ++ x ∷ [])
  All-concat P [] x h p = (p, tt)
  All-concat P (y ∷ xs) x h p = (h.0, All-concat P xs x h.1 p)
