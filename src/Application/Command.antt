-- ===== src/Application/Command.antt =====
-- `mapDeviceCommand` and `numericParam` of internal/application/service.go: a request of the API
-- becomes a Matter command. A nil map of parameters and an empty one are one here, as the source
-- makes the first the second.
pub mod Levels
pub mod Writable
use manisa_app.Prelude.{
  ℕ, String, Bool, ◌||◌, not, Option, none, some, List, [], ◌∷◌, lookup, ◌==◌, if◌then◌else◌, ◌>>=◌,
  pos,
}
use manisa_app.Float.{Float64, of_nat}
use manisa_app.Value.{Value, float64, float32, int, int64, int32, Params}
use manisa_app.Domain.Error.{Result, ok, fail, invalid_input, unsupported_capability}
use manisa_app.Matter.{Command}
use manisa_app.Capability.Catalog.{on_off, level}

pub record DeviceCommandInput (F : Type 0) : Type 0 where
  pub endpoint : ℕ
  pub capability : String
  pub action : String
  pub params : Params F

module _ {F : Type 0} ⦃fl : Float64 F⦄ where
  unfoldable pub numeric_value : Value F → Option F
  numeric_value (float64 x) = some x
  numeric_value (float32 x) = some x
  numeric_value (int n) = some (fl.of_int n)
  numeric_value (int64 n) = some (fl.of_int n)
  numeric_value (int32 n) = some (fl.of_int n)
  numeric_value _ = none

  unfoldable pub numeric_param : Params F → String → Option F
  numeric_param params key = do value ← lookup key params; numeric_value value

  -- the branch of the level capability, from the percentage on
  unfoldable pub level_command : ℕ → Option F → Result (Command F)
  level_command endpoint none = fail invalid_input
  level_command endpoint (some percent) =
      if fl.lt percent (of_nat 0) || fl.lt (of_nat 100) percent
      then fail invalid_input
      else ok (record {
        endpoint = endpoint;
        cluster_id = 8;
        name = "moveToLevelWithOnOff";
        payload =
            ("level", int (fl.to_int (fl.div (fl.mul percent (of_nat 254)) (of_nat 100)))) ∷ [];
      })

  unfoldable pub map_device_command : DeviceCommandInput F → Result (Command F)
  map_device_command input =
      if input.capability == on_off
      then (if input.action == "on" || input.action == "off" || input.action == "toggle"
          then ok (record {
            endpoint = input.endpoint;
            cluster_id = 6;
            name = input.action;
            payload = input.params;
          })
          else fail unsupported_capability)
      else if input.capability == level
      then (if not (input.action == "set_level")
          then fail unsupported_capability
          else level_command input.endpoint (numeric_param input.params "level"))
      else fail unsupported_capability
