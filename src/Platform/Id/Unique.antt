-- ===== src/Platform/Id/Unique.antt =====
-- Different random bytes make different identifiers.
use Prim.Native.Char.{Char, code}
use Prim.Native.String
use text.Mathlib.TextLemmas.{
  append_cancel_left, nil≢cons, cons≢nil, head-eq_of_cons-eq, tail-eq_of_cons-eq,
}
use manisa_app.Prelude.{
  ℕ, zero, suc, ◌-◌, ◌/◌, ◌%◌, ◌<◌, ◌≡◌, refl, ap, sym, ◌∙◌, String, some, List, [], ◌∷◌, All,
  arith, leb, if◌then◌else◌,
}
use manisa_app.Platform.Id.{hex_digit, hex_encode, new_id}

hex_value : Char → ℕ
hex_value c = if leb (code c) 57 then code c - 48 else code c - 87

hex_value_digit : (d : ℕ) → d < 16 → hex_value (hex_digit d) ≡ d
unfolding hex_value hex_digit
hex_value_digit zero h = refl
hex_value_digit (suc zero) h = refl
hex_value_digit (suc (suc zero)) h = refl
hex_value_digit (suc (suc (suc zero))) h = refl
hex_value_digit (suc (suc (suc (suc zero)))) h = refl
hex_value_digit (suc (suc (suc (suc (suc zero))))) h = refl
hex_value_digit (suc (suc (suc (suc (suc (suc zero)))))) h = refl
hex_value_digit (suc (suc (suc (suc (suc (suc (suc zero))))))) h = refl
hex_value_digit (suc (suc (suc (suc (suc (suc (suc (suc zero)))))))) h = refl
hex_value_digit (suc (suc (suc (suc (suc (suc (suc (suc (suc zero))))))))) h = refl
hex_value_digit (suc (suc (suc (suc (suc (suc (suc (suc (suc (suc zero)))))))))) h = refl
hex_value_digit (suc (suc (suc (suc (suc (suc (suc (suc (suc (suc (suc zero))))))))))) h = refl
hex_value_digit (suc (suc (suc (suc (suc (suc (suc (suc (suc (suc (suc (suc zero)))))))))))) h =
    refl
hex_value_digit (suc (suc (suc (suc (suc (suc (suc (suc (suc (suc (suc (suc (suc zero)))))))))))))
      h =
    refl
hex_value_digit
      (suc (suc (suc (suc (suc (suc (suc (suc (suc (suc (suc (suc (suc (suc zero)))))))))))))) h =
    refl
hex_value_digit
      (suc (suc (suc (suc (suc (suc (suc (suc (suc (suc (suc (suc (suc (suc (suc zero)))))))))))))))
      h =
    refl
hex_value_digit
      (suc
        (suc (suc (suc (suc (suc (suc (suc (suc (suc (suc (suc (suc (suc (suc (suc d))))))))))))))))
      h =
    absurd (omega arith)

hex_digit_injective : (a b : ℕ) → a < 16 → b < 16 → hex_digit a ≡ hex_digit b → a ≡ b
hex_digit_injective a b ha hb e = sym (hex_value_digit a ha) ∙ ap hex_value e ∙ hex_value_digit b hb

abbrev pub IsByte : ℕ → Type 0
IsByte b = b < 256

hex_encode_injective :
    (xs ys : List ℕ) → All IsByte xs → All IsByte ys → hex_encode xs ≡ hex_encode ys → xs ≡ ys
unfolding hex_encode
hex_encode_injective [] [] hx hy e = refl
hex_encode_injective [] (y ∷ ys) hx hy e = absurd (nil≢cons e)
hex_encode_injective (x ∷ xs) [] hx hy e = absurd (cons≢nil e)
hex_encode_injective (x ∷ xs) (y ∷ ys) (bx, hx) (by, hy) e =
    let e' = tail-eq_of_cons-eq e in
    let high : x / 16 ≡ y / 16 =
      hex_digit_injective _ _ (omega arith) (omega arith) (head-eq_of_cons-eq e) in
    let low : x % 16 ≡ y % 16 =
      hex_digit_injective _ _ (omega arith) (omega arith) (head-eq_of_cons-eq e') in
    let same : x ≡ y = omega arith in
    cc (same, hex_encode_injective xs ys hx hy (tail-eq_of_cons-eq e'))

-- Two identifiers with the same prefix that are made of bytes are equal only if the bytes are.
pub new_id_injective :
    (prefix : String) (xs ys : List ℕ)
    → All IsByte xs
    → All IsByte ys
    → new_id (some xs) prefix ≡ new_id (some ys) prefix
    → xs ≡ ys
unfolding new_id
new_id_injective prefix xs ys hx hy e =
    let whole : String.◌++◌ prefix (String.◌++◌ "_" (hex_encode xs))
        ≡ String.◌++◌ prefix (String.◌++◌ "_" (hex_encode ys)) =
      cc in
    hex_encode_injective xs ys hx hy
      (append_cancel_left "_" _ _ (append_cancel_left prefix _ _ whole))
