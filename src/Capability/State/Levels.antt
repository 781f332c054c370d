-- ===== src/Capability/State/Levels.antt =====
-- Reported brightness: 0 to 254 becomes the nearest percentage.
use manisa_app.Prelude.{
  ℕ, ◌+◌, ◌*◌, ◌/◌, ◌≤◌, ◌<◌, ◌^◌, ◌≡◌, refl, ◌⊎◌, some, none, arith, ltb, pos, ◌∙◌, Bool-cases,
  inl, inr,
}
use manisa_app.Float.{Float64, FloatLaws, of_nat}
use manisa_app.Value.{int, number}
use manisa_app.Text.Number.{format_uint}
use manisa_app.Capability.Catalog.{level}
use manisa_app.Capability.State.{level_value, normalize_matter_value, number_value}

-- round (100 n / 254)
abbrev pub percent : ℕ → ℕ
percent n = (2 * (n * 100) + 254) / 508

module _ {F : Type 0} ⦃fl : Float64 F⦄ (laws : FloatLaws fl) where
  pub level_value_in :
      (n : ℕ) → n ≤ 254 → level_value {F = F} (of_nat n) ≡ some (int (pos (percent n)))
  unfolding level_value
  level_value_in n h =
      rw
        (
          laws.lt_exact n 0 (omega arith) (omega arith),
          laws.lt_exact 254 n (omega arith) (omega arith),
          laws.mul_exact n 100 (omega arith),
          laws.to_int_round_quotient (n * 100) 254 (omega arith) (omega arith) (omega arith),
        )
        (ground arith)

  level_value_out : (n : ℕ) → 254 < n → n < 2 ^ 52 → level_value {F = F} (of_nat n) ≡ none
  unfolding level_value
  level_value_out n h small =
      rw (laws.lt_exact n 0 small (omega arith), laws.lt_exact 254 n (omega arith) small)
        (ground arith)

  pub normalize_number :
      (n : ℕ)
      → n < 2 ^ 52
      → normalize_matter_value {F = F} level (number (format_uint n))
        ≡ level_value {F = F} (of_nat n)
  unfolding normalize_matter_value number_value
  normalize_number n h = rw (laws.parse_exact n h) refl

-- With floats that obey the laws, a reported level of at most 254 becomes the percentage nearest to
-- it, which is at most 100; a larger one (below 2 ^ 52) is dropped.
pub normalize_level :
    {F : Type 0} ⦃fl : Float64 F⦄ (laws : FloatLaws fl) (n : ℕ)
    → n < 2 ^ 52
    → ((254 < n) × (normalize_matter_value {F = F} level (number (format_uint n)) ≡ none))
      ⊎ ((n ≤ 254)
          × ((q : ℕ) × (normalize_matter_value {F = F} level (number (format_uint n))
                ≡ some (int (pos q)))
              × (q ≤ 100)
              × (254 * q ≤ 100 * n + 127)
              × (100 * n ≤ 254 * q + 127)))
normalize_level laws n small = elim (Bool-cases (ltb 254 n)) [
  | inl out ↦
      inl
        (ground arith, normalize_number laws n small ∙ level_value_out laws n (ground arith) small)
  | inr fits ↦
      let le : n ≤ 254 = ground arith in
      inr (
        le,
        (
          percent n,
          normalize_number laws n small ∙ level_value_in laws n le,
          omega arith,
          omega arith,
          omega arith,
        ),
      )
]
