-- ===== src/Storage/Listing.antt =====
-- What a query with WHERE and ORDER BY lists: the rows of the table that match, each once, in order.
use manisa_app.Prelude.{
  ℕ, ◌≤◌, ◌≡◌, refl, inl, inr, Bool, true, false, ◌||◌, some, List, [], ◌∷◌, arith, any, All, Any,
  Bool-cases,
}
use manisa_app.Storage.Tables.{find, select, insert_sorted, order_by}
use manisa_app.Storage.Rows.{Unique}

-- `x` is one of the elements
abbrev pub Among : {A : Type 0} → A → List A → Type 0
Among x xs = Any (λ y. x ≡ y) xs

-- each element's key is at most that of the next
abbrev pub Ascending : {A : Type 0} → (A → ℕ) → List A → Type 0
Ascending key [] = Unit
Ascending key (x ∷ []) = Unit
Ascending key (x ∷ y ∷ ys) = (key x ≤ key y) × Ascending key (y ∷ ys)

module _ {A : Type 0} where
  -- what holds of all holds of each
  pub All-Among : (P : A → Type 0) (x : A) (xs : List A) → All P xs → Among x xs → P x
  All-Among P x [] h m = absurd m
  All-Among P x (y ∷ ys) h (inl e) = rw e h.0
  All-Among P x (y ∷ ys) h (inr m) = All-Among P x ys h.1 m

  All-of_any-false : (q : A → Bool) (xs : List A) → any q xs ≡ false → All (λ y. q y ≡ false) xs
  All-of_any-false q [] h = tt
  All-of_any-false q (x ∷ xs) h = (ground arith, All-of_any-false q xs (ground arith))

  pub find-Among :
      (p : A → Bool) (x : A) (xs : List A) → find p xs ≡ some x → Among x xs × (p x ≡ true)
  find-Among p x [] h = cc
  find-Among p x (y ∷ ys) h = elim (Bool-cases (p y)) [
    | inl t ↦ let e : x ≡ y = ground arith in (inl e, rw e t)
    | inr f ↦ let (m, q) = find-Among p x ys (ground arith) in (inr m, q)
  ]

  pub select-Among :
      (p : A → Bool) (x : A) (xs : List A) → Among x xs → p x ≡ true → Among x (select p xs)
  select-Among p x [] m h = absurd m
  select-Among p x (y ∷ ys) (inl e) h = let t : p y ≡ true = rw (← e) h in rw t (inl e)
  select-Among p x (y ∷ ys) (inr m) h =
      let later = select-Among p x ys m h in
      elim (Bool-cases (p y)) [ inl t ↦ rw t (inr later) | inr f ↦ rw f later ]

  insert_sorted-head :
      (le : A → A → Bool) (x y : A) (ys : List A)
      → le x y ≡ true
      → insert_sorted le x (y ∷ ys) ≡ x ∷ y ∷ ys
  unfolding insert_sorted
  insert_sorted-head le x y ys h = rw h refl

  insert_sorted-tail :
      (le : A → A → Bool) (x y : A) (ys : List A)
      → le x y ≡ false
      → insert_sorted le x (y ∷ ys) ≡ y ∷ insert_sorted le x ys
  unfolding insert_sorted
  insert_sorted-tail le x y ys h = rw h refl

  insert_sorted-Among :
      (le : A → A → Bool) (z x : A) (ys : List A)
      → Among z (x ∷ ys)
      → Among z (insert_sorted le x ys)
  insert_sorted-Among le z x [] m = unfold insert_sorted in m
  insert_sorted-Among le z x (y ∷ ys) m = elim (Bool-cases (le x y)) [
    | inl t ↦ rw (insert_sorted-head le x y ys t) m
    | inr f ↦ rw (insert_sorted-tail le x y ys f) (elim m [
      | inl e ↦ inr (insert_sorted-Among le z x ys (inl e))
      | inr (inl e) ↦ inl e
      | inr (inr k) ↦ inr (insert_sorted-Among le z x ys (inr k))
    ])
  ]

  pub order_by-Among :
      (le : A → A → Bool) (z : A) (xs : List A) → Among z xs → Among z (order_by le xs)
  unfolding order_by
  order_by-Among le z [] m = m
  order_by-Among le z (x ∷ xs) (inl e) = insert_sorted-Among le z x (order_by le xs) (inl e)
  order_by-Among le z (x ∷ xs) (inr m) =
      insert_sorted-Among le z x (order_by le xs) (inr (order_by-Among le z xs m))

  insert_sorted-All :
      (le : A → A → Bool) (P : A → Type 0) (x : A) (ys : List A)
      → P x
      → All P ys
      → All P (insert_sorted le x ys)
  insert_sorted-All le P x [] h k = unfold insert_sorted in (h, tt)
  insert_sorted-All le P x (y ∷ ys) h k = elim (Bool-cases (le x y)) [
    | inl t ↦ rw (insert_sorted-head le x y ys t) (h, k)
    | inr f ↦ rw (insert_sorted-tail le x y ys f) (k.0, insert_sorted-All le P x ys h k.1)
  ]

  pub order_by-All :
      (le : A → A → Bool) (P : A → Type 0) (xs : List A) → All P xs → All P (order_by le xs)
  unfolding order_by
  order_by-All le P [] h = h
  order_by-All le P (x ∷ xs) h =
      insert_sorted-All le P x (order_by le xs) h.0 (order_by-All le P xs h.1)

  any-select : (q p : A → Bool) (xs : List A) → any q xs ≡ false → any q (select p xs) ≡ false
  any-select q p [] h = h
  any-select q p (x ∷ xs) h = elim (Bool-cases (p x)) [
    | inl t ↦ rw t (ground (arith, any-select q p xs))
    | inr f ↦ rw f (any-select q p xs (ground arith))
  ]

  pub Unique-select :
      (same : A → A → Bool) (p : A → Bool) (xs : List A)
      → Unique same xs
      → Unique same (select p xs)
  Unique-select same p [] u = tt
  Unique-select same p (x ∷ xs) u = elim (Bool-cases (p x)) [
    | inl t ↦ rw t (any-select (λ y. same x y) p xs u.0, Unique-select same p xs u.1)
    | inr f ↦ rw f (Unique-select same p xs u.1)
  ]

  pub select-All :
      (p : A → Bool) (P : A → Type 0) (xs : List A)
      → ((x : A) → Among x xs → p x ≡ true → P x)
      → All P (select p xs)
  select-All p P [] h = tt
  select-All p P (x ∷ xs) h =
      let later = select-All p P xs (λ y m. h y (inr m)) in
      elim (Bool-cases (p x)) [ inl t ↦ rw t (h x (inl refl) t, later) | inr f ↦ rw f later ]

  any-insert_sorted :
      (le : A → A → Bool) (q : A → Bool) (x : A) (ys : List A)
      → any q (insert_sorted le x ys) ≡ (q x || any q ys)
  any-insert_sorted le q x [] = unfold insert_sorted in refl
  any-insert_sorted le q x (y ∷ ys) = elim (Bool-cases (le x y)) [
    | inl t ↦ rw (insert_sorted-head le x y ys t) refl
    | inr f ↦ rw (insert_sorted-tail le x y ys f) (ground (arith, any-insert_sorted le q x ys))
  ]

  any-order_by :
      (le : A → A → Bool) (q : A → Bool) (xs : List A) → any q (order_by le xs) ≡ any q xs
  unfolding order_by
  any-order_by le q [] = refl
  any-order_by le q (x ∷ xs) =
      ground (arith, any-insert_sorted le q x (order_by le xs), any-order_by le q xs)

  module _ (same : A → A → Bool) (symmetric : (a b : A) → same a b ≡ same b a) where
    Unique-insert_sorted :
        (le : A → A → Bool) (x : A) (ys : List A)
        → any (λ y. same x y) ys ≡ false
        → Unique same ys
        → Unique same (insert_sorted le x ys)
    Unique-insert_sorted le x [] h u = unfold insert_sorted in (refl, tt)
    Unique-insert_sorted le x (y ∷ ys) h u = elim (Bool-cases (le x y)) [
      | inl t ↦ rw (insert_sorted-head le x y ys t) (h, u)
      | inr f ↦ rw (insert_sorted-tail le x y ys f) (
        ground (arith, any-insert_sorted le (λ z. same y z) x ys, symmetric x y),
        Unique-insert_sorted le x ys (ground arith) u.1,
      )
    ]

    pub Unique-order_by :
        (le : A → A → Bool) (xs : List A) → Unique same xs → Unique same (order_by le xs)
    unfolding order_by
    Unique-order_by le [] u = tt
    Unique-order_by le (x ∷ xs) u =
        Unique-insert_sorted le x (order_by le xs)
          (ground (arith, any-order_by le (λ y. same x y) xs)) (Unique-order_by le xs u.1)

  module _ (le : A → A → Bool) (key : A → ℕ) (below : (a b : A) → le a b ≡ true → key a ≤ key b)
      (above : (a b : A) → le a b ≡ false → key b ≤ key a) where
    abbrev StartsFrom : ℕ → List A → Type 0
    StartsFrom n [] = Unit
    StartsFrom n (x ∷ xs) = n ≤ key x

    Ascending-cons :
        (x : A) (xs : List A) → StartsFrom (key x) xs → Ascending key xs → Ascending key (x ∷ xs)
    Ascending-cons x [] s h = tt
    Ascending-cons x (y ∷ ys) s h = (s, h)

    starts :
        (x : A) (xs : List A) → Ascending key (x ∷ xs) → StartsFrom (key x) xs × Ascending key xs
    starts x [] h = (tt, tt)
    starts x (y ∷ ys) h = h

    StartsFrom-insert_sorted :
        (n : ℕ) (x : A) (ys : List A)
        → n ≤ key x
        → StartsFrom n ys
        → StartsFrom n (insert_sorted le x ys)
    StartsFrom-insert_sorted n x [] h s = unfold insert_sorted in h
    StartsFrom-insert_sorted n x (y ∷ ys) h s = elim (Bool-cases (le x y)) [
      | inl t ↦ rw (insert_sorted-head le x y ys t) h
      | inr f ↦ rw (insert_sorted-tail le x y ys f) s
    ]

    Ascending-insert_sorted :
        (x : A) (ys : List A) → Ascending key ys → Ascending key (insert_sorted le x ys)
    Ascending-insert_sorted x [] h = unfold insert_sorted in tt
    Ascending-insert_sorted x (y ∷ ys) h = elim (Bool-cases (le x y)) [
      | inl t ↦ rw (insert_sorted-head le x y ys t) (below x y t, h)
      | inr f ↦
          let (from, rest) = starts y ys h in
          rw (insert_sorted-tail le x y ys f) (
            Ascending-cons y _ (StartsFrom-insert_sorted (key y) x ys (above x y f) from)
              (Ascending-insert_sorted x ys rest))
    ]

    pub Ascending-order_by : (xs : List A) → Ascending key (order_by le xs)
    unfolding order_by
    Ascending-order_by [] = tt
    Ascending-order_by (x ∷ xs) = Ascending-insert_sorted x (order_by le xs) (Ascending-order_by xs)

  -- In a table whose rows are one to a key, the row that is looked up by a row's key is that row.
  pub find-Unique :
      (same : A → A → Bool) (x : A) (xs : List A)
      → same x x ≡ true
      → Unique same xs
      → Among x xs
      → find (λ y. same y x) xs ≡ some x
  find-Unique same x [] r u m = absurd m
  find-Unique same x (y ∷ ys) r u (inl e) = rw (← e, r) refl
  find-Unique same x (y ∷ ys) r u (inr m) =
      let other : same y x ≡ false = All-Among _ x ys (All-of_any-false (λ z. same y z) ys u.0) m in
      rw (other) (find-Unique same x ys r u.1 m)
