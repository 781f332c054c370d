-- ===== src/Float.antt =====
-- Go's float64, which the development does not implement: its operations are a parameter, and what
-- the proofs rely on is `FloatLaws`, the exactness of IEEE 754 doubles on small whole numbers.
pub mod Ratio
use manisa_app.Prelude.{
  ℕ, ◌+◌, ◌*◌, ◌/◌, ◌^◌, ◌<◌, ◌≡◌, String, Bool, Option, some, ℤ, pos, ltb, nat_eq,
}
use manisa_app.Text.Number.{format_uint}

pub record Float64 (F : Type 0) : Type 0 where
  -- float64(i)
  pub of_int : ℤ → F
  pub lt : F → F → Bool
  pub eq : F → F → Bool
  pub mul : F → F → F
  pub div : F → F → F
  -- math.Round
  pub round : F → F
  -- int(x), which cuts off the fraction
  pub to_int : F → ℤ
  -- strconv.ParseFloat(s, 64)
  pub parse_float : String → Option F

abbrev pub of_nat : {F : Type 0} ⦃fl : Float64 F⦄ → ℕ → F
of_nat ⦃fl⦄ n = fl.of_int (pos n)

-- Whole numbers below 2 ^ 52 are represented exactly, so they compare as numbers do and a product
-- that stays there is exact. A correctly rounded quotient of two such numbers lies on the same side
-- of every whole number and of every half as the exact quotient, so that cutting it off and
-- rounding it (half away from zero) give what they give for the exact one.
pub record FloatLaws {F : Type 0} (fl : Float64 F) : Type 0 where
  pub lt_exact :
      (a b : ℕ) → a < 2 ^ 52 → b < 2 ^ 52 → fl.lt (fl.of_int (pos a)) (fl.of_int (pos b)) ≡ ltb a b
  pub eq_exact :
      (a b : ℕ)
      → a < 2 ^ 52
      → b < 2 ^ 52
      → fl.eq (fl.of_int (pos a)) (fl.of_int (pos b)) ≡ nat_eq a b
  pub mul_exact :
      (a b : ℕ)
      → a * b < 2 ^ 52
      → fl.mul (fl.of_int (pos a)) (fl.of_int (pos b)) ≡ fl.of_int (pos (a * b))
  pub to_int_quotient :
      (a b : ℕ)
      → a < 2 ^ 52
      → 0 < b
      → b < 2 ^ 52
      → fl.to_int (fl.div (fl.of_int (pos a)) (fl.of_int (pos b))) ≡ pos (a / b)
  pub to_int_round_quotient :
      (a b : ℕ)
      → a < 2 ^ 51
      → 0 < b
      → b < 2 ^ 51
      → fl.to_int (fl.round (fl.div (fl.of_int (pos a)) (fl.of_int (pos b))))
        ≡ pos ((2 * a + b) / (2 * b))
  pub parse_exact : (n : ℕ) → n < 2 ^ 52 → fl.parse_float (format_uint n) ≡ some (fl.of_int (pos n))
