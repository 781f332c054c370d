-- ===== src/Application/EventBus/Channels.antt =====
-- One channel: what `deliver` keeps is the newest values, as many as fit.
use manisa_app.Prelude.{
  ℕ, zero, suc, ◌+◌, ◌-◌, ◌≤◌, ◌<◌, ◌≡◌, refl, inl, inr, Bool-cases, true, List, [], ◌∷◌, ◌++◌,
  arith, length, length-append, drop, ltb,
}
use manisa_app.Domain.{RealtimeEvent}
use manisa_app.Application.EventBus.{Channel, try_send, try_receive, deliver}

-- the last `n` elements
abbrev pub keep_last {ℓ} : {A : Type ℓ} → ℕ → List A → List A
keep_last n xs = drop (length xs - n) xs

pub record IsChannel {F : Type 0} (ch : Channel F) : Type 0 where
  pub room : 0 < ch.cap
  pub fits : length ch.queue ≤ ch.cap

module _ {ℓ} {A : Type ℓ} where
  drop-zero_eq : (n : ℕ) (xs : List A) → n ≡ 0 → drop n xs ≡ xs
  drop-zero_eq n xs e = rw e

  drop-append : (n : ℕ) (xs ys : List A) → n ≤ length xs → drop n (xs ++ ys) ≡ drop n xs ++ ys
  drop-append zero xs ys h = refl
  drop-append (suc n) [] ys h = absurd (omega arith)
  drop-append (suc n) (x ∷ xs) ys h = drop-append n xs ys (omega arith)

  drop-nil : (m : ℕ) → drop {A = A} m [] ≡ []
  drop-nil zero = refl
  drop-nil (suc m) = refl

  pub drop-drop : (m n k : ℕ) (xs : List A) → k ≡ n + m → drop m (drop n xs) ≡ drop k xs
  drop-drop m zero k xs e = let same : k ≡ m = omega arith in rw same
  drop-drop m (suc n) zero xs e = absurd (omega arith)
  drop-drop m (suc n) (suc k) [] e = drop-nil m
  drop-drop m (suc n) (suc k) (x ∷ xs) e = drop-drop m n k xs (omega arith)

  pub length-drop : (n : ℕ) (xs : List A) → length (drop n xs) ≡ length xs - n
  length-drop zero xs = omega arith
  length-drop (suc n) [] = omega arith
  length-drop (suc n) (x ∷ xs) = omega (arith, length-drop n xs)

  -- Keeping the last `n` after each addition is keeping the last `n` at the end.
  pub keep_last-keep_last :
      (n : ℕ) (xs ys : List A) → keep_last n (keep_last n xs ++ ys) ≡ keep_last n (xs ++ ys)
  keep_last-keep_last n xs ys = rw (← drop-append (length xs - n) xs ys (omega arith)) (
      drop-drop _ (length xs - n) _ (xs ++ ys)
        (omega (arith, length-drop (length xs - n) (xs ++ ys), length-append xs ys)))

  -- Nothing is dropped from what fits.
  pub keep_last_all : (n : ℕ) (xs : List A) → length xs ≤ n → keep_last n xs ≡ xs
  keep_last_all n xs h = let none_over : length xs - n ≡ 0 = omega arith in rw none_over

  length-keep_last : (n : ℕ) (xs : List A) → length (keep_last n xs) ≤ n
  length-keep_last n xs = omega (arith, length-drop (length xs - n) xs)

module _ {F : Type 0} where
  deliver_at :
      (v : RealtimeEvent F) (cap : ℕ) (q : List (RealtimeEvent F))
      → 0 < cap
      → length q ≤ cap
      → deliver v (record { cap = cap; queue = q })
        ≡ record { cap = cap; queue = keep_last cap (q ++ v ∷ []) }
  unfolding deliver try_send try_receive
  deliver_at v cap [] room fits =
      let none_over : 1 - cap ≡ 0 = omega arith in rw none_over (ground arith)
  deliver_at v cap (x ∷ rest) room fits = elim (Bool-cases (ltb (suc (length rest)) cap)) [
    | inl t ↦
        let le : suc (length rest) < cap = ground arith in
        let none_over : suc (length (rest ++ v ∷ [])) - cap ≡ 0 =
          omega (arith, length-append rest (v ∷ [])) in
        rw (t, none_over) refl
    | inr f ↦
        let full : cap ≡ suc (length rest) = ground arith in
        let lt : ltb (length rest) cap ≡ true = ground arith in
        let one_over : suc (length (rest ++ v ∷ [])) - cap ≡ 1 =
          omega (arith, length-append rest (v ∷ [])) in
        rw (f, lt, one_over) refl
  ]

  pub deliver-queue :
      (v : RealtimeEvent F) (ch : Channel F)
      → IsChannel ch
      → deliver v ch ≡ record ch { queue = keep_last ch.cap (ch.queue ++ v ∷ []) }
  deliver-queue v ch ok = deliver_at v ch.cap ch.queue ok.room ok.fits

  pub deliver-IsChannel :
      (v : RealtimeEvent F) (ch : Channel F) → IsChannel ch → IsChannel (deliver v ch)
  deliver-IsChannel v ch ok =
      rw (deliver-queue v ch ok)
        (record { room = ok.room; fits = length-keep_last ch.cap (ch.queue ++ v ∷ []) })
