-- ===== src/HttpApi/Route.antt =====
-- The patterns of internal/httpapi/router.go. A path is taken without percent-encoding.
use manisa_app.Prelude.{String, Bool, ◌&&◌, ◌||◌, not, List, [], ◌∷◌, ◌==◌, if◌then◌else◌}
use manisa_app.Text.Trim.{is_empty}

pub data Route : Type 0 where
  live ready pairing system events device_types homes_list homes_create : Route
  rooms_list rooms_create devices_list devices_create commission nowhere : Route
  descriptor_of state_of_device commands_of : String → Route

-- a path value: a segment that is not empty and that is no step of a path
abbrev is_value : String → Bool
is_value s = not (is_empty s || s == "." || s == "..")

-- a pattern of GET is one of HEAD too
abbrev is_get : String → Bool
is_get method = method == "GET" || method == "HEAD"

-- the patterns under /api/v1, by the segments that follow
unfoldable pub route_api : String → List String → Route
route_api method (a ∷ []) =
    if a == "pair" && method == "POST"
    then pairing
    else if a == "system" && is_get method
    then system
    else if a == "events" && is_get method
    then events
    else if a == "device-types" && is_get method
    then device_types
    else if a == "homes" && is_get method
    then homes_list
    else if a == "homes" && method == "POST"
    then homes_create
    else if a == "rooms" && is_get method
    then rooms_list
    else if a == "rooms" && method == "POST"
    then rooms_create
    else if a == "devices" && is_get method
    then devices_list
    else if a == "devices" && method == "POST"
    then devices_create
    else nowhere
route_api method (a ∷ b ∷ []) =
    if a == "matter" && b == "commission" && method == "POST" then commission else nowhere
route_api method (a ∷ id ∷ b ∷ []) =
    if not (a == "devices" && is_value id)
    then nowhere
    else if b == "descriptor" && is_get method
    then descriptor_of id
    else if b == "state" && is_get method
    then state_of_device id
    else if b == "commands" && method == "POST"
    then commands_of id
    else nowhere
route_api method _ = nowhere

-- the patterns of NewRouter, by the segments of the path
unfoldable pub route : String → List String → Route
route method (root ∷ a ∷ b ∷ rest) =
    if not (is_empty root)
    then nowhere
    else if a == "health"
    then (elim rest [
      | [] ↦
          if b == "live" && is_get method
          then live
          else if b == "ready" && is_get method
          then ready
          else nowhere
      | c ∷ more ↦ nowhere
    ])
    else if a == "api" && b == "v1"
    then route_api method rest
    else nowhere
route method _ = nowhere
