-- ===== src/Application/Command/Levels.antt =====
-- Levels that are set, and what the device reports of them.
use manisa_app.Prelude.{
  ℕ, ◌*◌, ◌/◌, ◌≤◌, ◌<◌, ◌^◌, ◌≡◌, ◌∙◌, refl, ap, some, [], ◌∷◌, lookup, arith, pos,
}
use manisa_app.Float.{Float64, FloatLaws, of_nat}
use manisa_app.Value.{float64, int, number}
use manisa_app.Text.Number.{format_uint}
use manisa_app.Domain.Error.{ok, fail, invalid_input}
use manisa_app.Matter.{Command}
use manisa_app.Capability.Catalog.{level}
use manisa_app.Capability.State.{normalize_matter_value}
use manisa_app.Capability.State.Levels.{percent, normalize_number, level_value_in}
use manisa_app.Application.Command.{
  DeviceCommandInput, numeric_value, numeric_param, level_command, map_device_command,
}

abbrev pub move_to_level : {F : Type 0} → ℕ → ℕ → Command F
move_to_level endpoint m = record {
  endpoint = endpoint;
  cluster_id = 8;
  name = "moveToLevelWithOnOff";
  payload = ("level", int (pos m)) ∷ [];
}

-- A request to set the level to `x`.
pub record SetsLevel {F : Type 0} (input : DeviceCommandInput F) (x : F) : Type 0 where
  pub capability : input.capability ≡ level
  pub action : input.action ≡ "set_level"
  pub param : lookup "level" input.params ≡ some (float64 x)

module _ {F : Type 0} ⦃fl : Float64 F⦄ where
  map-SetsLevel :
      (input : DeviceCommandInput F) (x : F)
      → SetsLevel input x
      → map_device_command input ≡ level_command input.endpoint (some x)
  unfolding map_device_command numeric_param numeric_value
  map-SetsLevel input x s = rw (s.capability, s.action, s.param) refl

  module _ (laws : FloatLaws fl) where
    level_command_in :
        (e p : ℕ)
        → p ≤ 100
        → level_command {F = F} e (some (of_nat p)) ≡ ok (move_to_level e (p * 254 / 100))
    unfolding level_command
    level_command_in e p h =
        rw
          (
            laws.lt_exact p 0 (omega arith) (omega arith),
            laws.lt_exact 100 p (omega arith) (omega arith),
            laws.mul_exact p 254 (omega arith),
            laws.to_int_quotient (p * 254) 100 (omega arith) (omega arith) (omega arith),
          )
          (ground arith)

    level_command_out :
        (e p : ℕ)
        → 100 < p
        → p < 2 ^ 52
        → level_command {F = F} e (some (of_nat p)) ≡ fail invalid_input
    unfolding level_command
    level_command_out e p h small =
        rw (laws.lt_exact p 0 small (omega arith), laws.lt_exact 100 p (omega arith) small)
          (ground arith)

-- The percentage that belongs to the level of a percentage is that percentage.
percent_of_level : (p : ℕ) → p ≤ 100 → percent (p * 254 / 100) ≡ p
percent_of_level p h = omega arith

-- With floats that obey the laws, a set_level request for a whole percentage of at most 100 becomes a
-- moveToLevelWithOnOff command whose level is at most 254, and the report of that level by the device
-- is normalised to the percentage that was asked for.
pub set_level_round_trip :
    {F : Type 0} ⦃fl : Float64 F⦄ (laws : FloatLaws fl) (input : DeviceCommandInput F) (p : ℕ)
    → SetsLevel input (of_nat p)
    → p ≤ 100
    → (m : ℕ) × (map_device_command input ≡ ok (move_to_level input.endpoint m))
      × (m ≤ 254)
      × (normalize_matter_value {F = F} level (number (format_uint m)) ≡ some (int (pos p)))
set_level_round_trip laws input p s h = (
  p * 254 / 100,
  map-SetsLevel input _ s ∙ level_command_in laws input.endpoint p h,
  omega arith,
  normalize_number laws (p * 254 / 100) (omega arith)
      ∙ level_value_in laws (p * 254 / 100) (omega arith)
      ∙ ap (λ q. some (int (pos q))) (percent_of_level p h),
)

-- With floats that obey the laws, a set_level request for a whole percentage above 100 (and below
-- 2 ^ 52) is refused as invalid input.
pub set_level_rejects :
    {F : Type 0} ⦃fl : Float64 F⦄ (laws : FloatLaws fl) (input : DeviceCommandInput F) (p : ℕ)
    → SetsLevel input (of_nat p)
    → 100 < p
    → p < 2 ^ 52
    → map_device_command input ≡ fail invalid_input
set_level_rejects laws input p s h small =
    map-SetsLevel input _ s ∙ level_command_out laws input.endpoint p h small
