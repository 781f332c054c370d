-- ===== src/Tests/Capabilities.antt =====
-- The catalog, paths, levels and identifiers.
use manisa_app.Prelude.{
  ℕ, ◌+◌, ◌*◌, ◌≤◌, ◌<◌, ◌≡◌, refl, ◌↔◌, ◌⊎◌, true, none, some, [], ◌∷◌, arith, pos, if◌then◌else◌,
}
use manisa_app.Float.Ratio.{Ratio, ratio, ratio_laws}
use manisa_app.Value.{bool, int, number}
use manisa_app.Text.Number.{format_uint, parse_uint}
use manisa_app.Text.Trim.{trim_space}
use manisa_app.Text.Split.{split}
use manisa_app.Domain.{DeviceDescriptor}
use manisa_app.Domain.Error.{ok}
use manisa_app.Platform.Id.{new_id, hex_encode}
use manisa_app.Capability.Catalog.{
  level, on_off, motion, get, supports, has_capability, switch_descriptor, catalog, channels,
}
use manisa_app.Capability.Catalog.Supports.{Offers, supports_iff}
use manisa_app.Capability.State.{
  StateMapping, parse_attribute_path, parse_parts, capability_for, normalize_matter_value,
  from_matter_attribute, bool_value,
}
use manisa_app.Capability.State.Paths.{format_path, parse_attribute_path-format_path}
use manisa_app.Capability.State.Mapping.{
  Fits, mapping, from_matter_attribute_sound, from_matter_attribute-format_path,
}
use manisa_app.Capability.State.Levels.{normalize_level}
use manisa_app.Application.Command.{map_device_command}
use manisa_app.Application.Command.Levels.{move_to_level, set_level_round_trip}
use manisa_app.Application.Command.Writable.{
  IsCommandable, OffersWritable, IsCommandable-iff_writable,
}
use manisa_app.Tests.Fixture.{dim}

supports_iff_example :
    (supports "socket" 1 "power" ≡ true)
    ↔ ((d : DeviceDescriptor) × (get "socket" ≡ some d) × Offers 1 "power" d)
supports_iff_example = supports_iff "socket" 1 "power"

parse_attribute_path-format_path_example :
    parse_attribute_path (format_path 1 1026 0) ≡ some (1, 1026, 0)
parse_attribute_path-format_path_example =
    parse_attribute_path-format_path 1 1026 0 (omega arith) (omega arith) (omega arith)
      (omega arith)

parse_1_8_0 : parse_attribute_path " 1/8/0" ≡ some (1, 8, 0)
unfolding parse_attribute_path parse_parts trim_space split parse_uint
parse_1_8_0 = refl

-- The endpoint 0, a sign, a fourth part and a value beyond uint16 are refused.
parse_refuses :
    (parse_attribute_path "0/6/0" ≡ none)
    × (parse_attribute_path "1/+6/0" ≡ none)
    × (parse_attribute_path "1/6/0/0" ≡ none)
    × (parse_attribute_path "65536/6/0" ≡ none)
unfolding parse_attribute_path parse_parts trim_space split parse_uint
parse_refuses = (refl, refl, refl, refl)

abbrev on_state : StateMapping Ratio
on_state = record { endpoint = 1; capability = on_off; value = bool true }

dimmer_on : from_matter_attribute "dimmer_1gang" "1/6/0" (bool true) ≡ some on_state
unfolding from_matter_attribute parse_attribute_path parse_parts trim_space split parse_uint
    supports get catalog has_capability switch_descriptor channels capability_for
    normalize_matter_value bool_value
dimmer_on = refl

motion_has_no_switch : from_matter_attribute {F = Ratio} "motion_sensor" "1/6/0" (bool true) ≡ none
unfolding from_matter_attribute parse_attribute_path parse_parts trim_space split parse_uint
    supports get catalog has_capability switch_descriptor channels capability_for
    normalize_matter_value bool_value
motion_has_no_switch = refl

from_matter_attribute_sound_example :
    (supports "dimmer_1gang" 1 on_off ≡ true) × Fits {F = Ratio} on_off (bool true)
from_matter_attribute_sound_example =
    from_matter_attribute_sound "dimmer_1gang" "1/6/0" (bool true) on_state dimmer_on

from_matter_attribute-format_path_example :
    from_matter_attribute {F = Ratio} "dimmer_1gang" (format_path 1 6 0) (bool true) ≡ (
      if supports "dimmer_1gang" 1 (capability_for 6 0)
      then mapping 1 (capability_for 6 0) (normalize_matter_value (capability_for 6 0) (bool true))
      else none)
from_matter_attribute-format_path_example =
    from_matter_attribute-format_path "dimmer_1gang" 1 6 0 (bool true) (omega arith) (omega arith)
      (omega arith) (omega arith)

normalize_level_example :
    ((254 < 127) × (normalize_matter_value {F = Ratio} level (number (format_uint 127)) ≡ none))
    ⊎ ((127 ≤ 254)
        × ((q : ℕ) × (normalize_matter_value {F = Ratio} level (number (format_uint 127))
              ≡ some (int (pos q)))
            × (q ≤ 100)
            × (254 * q ≤ 100 * 127 + 127)
            × (100 * 127 ≤ 254 * q + 127)))
normalize_level_example = normalize_level ratio_laws 127 (omega arith)

set_level_round_trip_example :
    (m : ℕ) × (map_device_command dim ≡ ok (move_to_level 1 m))
    × (m ≤ 254)
    × (normalize_matter_value {F = Ratio} level (number (format_uint m)) ≡ some (int (pos 50)))
set_level_round_trip_example =
    set_level_round_trip ratio_laws dim 50
      (record { capability = refl; action = refl; param = refl }) (omega arith)

IsCommandable-iff_writable_example :
    ((supports "motion_sensor" 1 motion ≡ true) × IsCommandable Ratio 1 motion) ↔ (
      (d : DeviceDescriptor) × (get "motion_sensor" ≡ some d) × OffersWritable 1 motion d.endpoints)
IsCommandable-iff_writable_example = IsCommandable-iff_writable ratio_laws "motion_sensor" 1 motion

new_id_hex : new_id (some (10 ∷ 255 ∷ [])) "home" ≡ ok "home_0aff"
unfolding new_id hex_encode
new_id_hex = refl
