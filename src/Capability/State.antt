-- ===== src/Capability/State.antt =====
-- internal/capability/state.go
pub mod Paths
pub mod Mapping
pub mod Levels
use manisa_app.Prelude.{
  ℕ, String, Bool, true, false, not, ◌&&◌, ◌||◌, Option, none, some, List, [], ◌∷◌, nat_eq, ◌==◌,
  if◌then◌else◌, ◌>>=◌, pos, arith, map,
}
use manisa_app.Float.{Float64, of_nat}
use manisa_app.Value.{
  Value, nil, bool, str, float64, float32, int, int8, int16, int32, int64, uint, uint8, uint16,
  uint32, uint64, number,
}
use manisa_app.Text.Trim.{trim_space}
use manisa_app.Text.Split.{split}
use manisa_app.Text.Number.{parse_uint}
use manisa_app.Capability.Catalog.{on_off, level, temperature, humidity, motion, contact, supports}

pub record StateMapping (F : Type 0) : Type 0 where
  pub endpoint : ℕ
  pub capability : String
  pub value : Value F

unfoldable pub capability_for : ℕ → ℕ → String
capability_for cluster_id attribute_id =
    if not (nat_eq attribute_id 0)
    then ""
    else if nat_eq cluster_id 6
    then on_off
    else if nat_eq cluster_id 8
    then level
    else if nat_eq cluster_id 1026
    then temperature
    else if nat_eq cluster_id 1029
    then humidity
    else if nat_eq cluster_id 1030
    then motion
    else if nat_eq cluster_id 69
    then contact
    else ""

-- The parts of a path: `len(parts) != 3` is the pattern.
unfoldable pub parse_parts : List String → Option (ℕ × ℕ × ℕ)
parse_parts (p ∷ q ∷ r ∷ []) = do
  endpoint ← parse_uint 16 p
  if nat_eq endpoint 0 then none else do
    cluster_id ← parse_uint 32 q
    attribute_id ← parse_uint 32 r
    some (endpoint, cluster_id, attribute_id)
parse_parts _ = none

-- The path is endpoint/cluster/attribute, each in decimal.
unfoldable pub parse_attribute_path : String → Option (ℕ × ℕ × ℕ)
parse_attribute_path path = parse_parts (split b'/' (trim_space path))

module _ {F : Type 0} ⦃fl : Float64 F⦄ where
  unfoldable pub number_value : Value F → Option F
  number_value (float64 x) = some x
  number_value (float32 x) = some x
  number_value (int n) = some (fl.of_int n)
  number_value (int8 n) = some (fl.of_int n)
  number_value (int16 n) = some (fl.of_int n)
  number_value (int32 n) = some (fl.of_int n)
  number_value (int64 n) = some (fl.of_int n)
  number_value (uint n) = some (of_nat n)
  number_value (uint8 n) = some (of_nat n)
  number_value (uint16 n) = some (of_nat n)
  number_value (uint32 n) = some (of_nat n)
  number_value (uint64 n) = some (of_nat n)
  number_value (number s) = fl.parse_float s
  number_value _ = none

  -- number != 0
  abbrev pub nonzero : F → Bool
  nonzero x = not (fl.eq x (of_nat 0))

  unfoldable pub bool_value : Value F → Option Bool
  bool_value (bool b) = some b
  bool_value v = do x ← number_value v; some (nonzero x)

  -- 0 to 254 to a percentage
  unfoldable pub level_value : F → Option (Value F)
  level_value x =
      if fl.lt x (of_nat 0) || fl.lt (of_nat 254) x
      then none
      else some (int (fl.to_int (fl.round (fl.div (fl.mul x (of_nat 100)) (of_nat 254)))))

  unfoldable pub normalize_matter_value : String → Value F → Option (Value F)
  normalize_matter_value id value =
      if id == on_off || id == contact
      then (do b ← bool_value value; some (bool b))
      else if id == motion
      then (do x ← number_value value; some (bool (nonzero x)))
      else if id == level
      then (do x ← number_value value; level_value x)
      else if id == temperature || id == humidity
      then (do x ← number_value value; some (float64 (fl.div x (of_nat 100))))
      else none

  -- The source tests that the capability is supported, and then that it is not "".
  unfoldable pub from_matter_attribute : String → String → Value F → Option (StateMapping F)
  from_matter_attribute product_type path value = do
    (endpoint, cluster_id, attribute_id) ← parse_attribute_path path
    if not (supports product_type endpoint (capability_for cluster_id attribute_id))
        then none
        else if capability_for cluster_id attribute_id == ""
        then none
        else do
          normalized ← normalize_matter_value (capability_for cluster_id attribute_id) value
          some (record {
            endpoint = endpoint;
            capability = capability_for cluster_id attribute_id;
            value = normalized;
          })
