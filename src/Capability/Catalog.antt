-- ===== src/Capability/Catalog.antt =====
-- internal/capability/catalog.go
pub mod Supports
use manisa_app.Prelude.{
  ℕ, zero, suc, ◌+◌, String, Bool, true, false, ◌&&◌, Option, none, some, List, [], ◌∷◌, ◌++◌, map,
  nat_eq, ◌==◌, if◌then◌else◌, any, lookup,
}
use Prim.Native.String
use manisa_app.Text.Number.{format_uint}
use manisa_app.Value.{Value, str, int, Params}
use manisa_app.Prelude.{ℤ, pos}
use manisa_app.Domain.{CapabilityDescriptor, EndpointDescriptor, DeviceDescriptor}

abbrev pub on_off : String
on_off = "on_off"

abbrev pub level : String
level = "level"

abbrev pub temperature : String
temperature = "temperature"

abbrev pub humidity : String
humidity = "humidity"

abbrev pub motion : String
motion = "motion"

abbrev pub contact : String
contact = "contact"

abbrev pub power : String
power = "power"

abbrev pub energy : String
energy = "energy"

-- {ID: id, Readable: true, Writable: writable, Metadata: metadata}
abbrev capability : String → Bool → Params ⊥ → CapabilityDescriptor
capability id writable metadata = record {
  id = id;
  readable = true;
  writable = writable;
  metadata = metadata;
}

abbrev unit : String → Params ⊥
unit u = ("unit", str u) ∷ []

-- The rounds of `for i := 1; i <= gangs; i++`: the number of rounds left, and `i`.
unfoldable pub channels : ℕ → ℕ → List EndpointDescriptor
channels zero i = []
channels (suc left) i =
    record {
      id = i;
      name = String.◌++◌ "Channel " (format_uint i);
      capabilities = capability on_off true [] ∷ [];
    }
    ∷ channels left (i + 1)

unfoldable pub switch_descriptor : String → String → ℕ → DeviceDescriptor
switch_descriptor product_type display_name gangs = record {
  product_type = product_type;
  display_name = display_name;
  category = "switch";
  endpoints = channels gangs 1;
}

-- a descriptor with one endpoint, whose id is 1
abbrev single : String → String → String → String → List CapabilityDescriptor → DeviceDescriptor
single product_type display_name category name capabilities = record {
  product_type = product_type;
  display_name = display_name;
  category = category;
  endpoints = record { id = 1; name = name; capabilities = capabilities } ∷ [];
}

unfoldable pub catalog : List (String × DeviceDescriptor)
catalog =
    ("switch_1gang", switch_descriptor "switch_1gang" "Manisa 1-Gang Touch Switch" 1)
    ∷ ("switch_2gang", switch_descriptor "switch_2gang" "Manisa 2-Gang Touch Switch" 2)
    ∷ ("switch_3gang", switch_descriptor "switch_3gang" "Manisa 3-Gang Touch Switch" 3)
    ∷ (
      "dimmer_1gang",
      single "dimmer_1gang" "Manisa Touch Dimmer" "dimmer" "Channel 1" (
          capability on_off true []
          ∷ capability level true (("min", int (pos 0)) ∷ ("max", int (pos 100)) ∷ [])
          ∷ []),
    )
    ∷ (
      "socket",
      single "socket" "Manisa Smart Socket" "socket" "Outlet" (
          capability on_off true []
          ∷ capability power false (unit "W")
          ∷ capability energy false (unit "Wh")
          ∷ []),
    )
    ∷ (
      "climate_sensor",
      single "climate_sensor" "Manisa Climate Sensor" "sensor" "Environment"
          (capability temperature false (unit "C") ∷ capability humidity false (unit "%") ∷ []),
    )
    ∷ (
      "motion_sensor",
      single "motion_sensor" "Manisa Motion Sensor" "sensor" "Motion"
          (capability motion false [] ∷ []),
    )
    ∷ (
      "contact_sensor",
      single "contact_sensor" "Manisa Door/Window Sensor" "sensor" "Contact"
          (capability contact false [] ∷ []),
    )
    ∷ []

unfoldable pub get : String → Option DeviceDescriptor
get product_type = lookup product_type catalog

-- The source ranges over a map: the order of the result is open, here it is that of the text.
unfoldable pub list_types : List DeviceDescriptor
list_types = map (λ e. e.1) catalog

-- The two loops of `Supports`.
unfoldable pub has_capability : List EndpointDescriptor → ℕ → String → Bool
has_capability endpoints endpoint id =
    any (λ e. nat_eq e.id endpoint && any (λ c. c.id == id) e.capabilities) endpoints

unfoldable pub supports : String → ℕ → String → Bool
supports product_type endpoint id = elim (get product_type) [
  | none ↦ false
  | some descriptor ↦ has_capability descriptor.endpoints endpoint id
]
