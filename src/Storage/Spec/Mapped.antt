-- ===== src/Storage/Spec/Mapped.antt =====
-- WHERE, ORDER BY and the rest on rows that stand for other things, one for each.
use manisa_app.Prelude.{
  ◌≡◌, refl, Bool, Option, none, some, List, [], ◌∷◌, ◌++◌, map, any, All, inl, inr, Bool-cases,
}
use manisa_app.Storage.Tables.{find, select, insert_sorted, order_by}

abbrev pub map_option : {A B : Type 0} → (A → B) → Option A → Option B
map_option f none = none
map_option f (some a) = some (f a)

module _ {A B : Type 0} (f : A → B) where
  pub any-map : (p : B → Bool) (xs : List A) → any p (map f xs) ≡ any (λ x. p (f x)) xs
  any-map p [] = refl
  any-map p (x ∷ xs) = rw (any-map p xs) refl

  pub find-map :
      (p : B → Bool) (xs : List A) → find p (map f xs) ≡ map_option f (find (λ x. p (f x)) xs)
  find-map p [] = refl
  find-map p (x ∷ xs) = elim (Bool-cases (p (f x))) [
    | inl t ↦ rw t refl
    | inr n ↦ rw n (find-map p xs)
  ]

  pub select-map :
      (p : B → Bool) (xs : List A) → select p (map f xs) ≡ map f (select (λ x. p (f x)) xs)
  select-map p [] = refl
  select-map p (x ∷ xs) = elim (Bool-cases (p (f x))) [
    | inl t ↦ rw (t, select-map p xs) refl
    | inr n ↦ rw (n) (select-map p xs)
  ]

  insert_sorted-map :
      (le : B → B → Bool) (x : A) (ys : List A)
      → insert_sorted le (f x) (map f ys) ≡ map f (insert_sorted (λ a b. le (f a) (f b)) x ys)
  unfolding insert_sorted
  insert_sorted-map le x [] = refl
  insert_sorted-map le x (y ∷ ys) = elim (Bool-cases (le (f x) (f y))) [
    | inl t ↦ rw t refl
    | inr n ↦ rw (n, insert_sorted-map le x ys) refl
  ]

  pub order_by-map :
      (le : B → B → Bool) (xs : List A)
      → order_by le (map f xs) ≡ map f (order_by (λ a b. le (f a) (f b)) xs)
  unfolding order_by
  order_by-map le [] = refl
  order_by-map le (x ∷ xs) =
      rw (order_by-map le xs) (insert_sorted-map le x (order_by (λ a b. le (f a) (f b)) xs))

  pub map-append : (xs ys : List A) → map f (xs ++ ys) ≡ map f xs ++ map f ys
  map-append [] ys = refl
  map-append (x ∷ xs) ys = rw (map-append xs ys) refl

  -- What is read back as it was written.
  pub map-back : (g : B → A) (xs : List A) → All (λ x. g (f x) ≡ x) xs → map g (map f xs) ≡ xs
  map-back g [] h = refl
  map-back g (x ∷ xs) (h, hs) = rw (h, map-back g xs hs) refl
