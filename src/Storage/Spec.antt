-- ===== src/Storage/Spec.antt =====
-- What a store is for: the homes, rooms, devices, states of devices and clients that it was given, as
-- the program knows them, with none of the tables, the texts and the statements. It is a Store
-- itself, over that state. Of the engine it knows the clock, the text of a time, by which lists are
-- ordered, and which values have a JSON text.
pub mod Mapped
pub mod Rows
pub mod Changes
pub mod Updates
pub mod Queries
pub mod Calls
pub mod Alike
use manisa_app.Prelude.{
  ℕ, ◌+◌, String, Bool, true, false, not, ◌||◌, ◌&&◌, Option, none, some, List, [], ◌∷◌, ◌++◌, ◌==◌,
  any, map, nat_eq, ltb, if◌then◌else◌,
}
use manisa_app.Value.{Value}
use manisa_app.Domain.{Home, Room, Device, DeviceState, LocalClient}
use manisa_app.Domain.Error.{Exec, Result, ok, err, Error, wrapped, message, sentinel, not_found}
use manisa_app.Domain.Store.{Store}
use manisa_app.Storage.Engine.{Engine}
use manisa_app.Storage.Tables.{find, select, order_by, text_le, opt_eq, holds_if_set}

pub record Hub (F : Type 0) : Type 0 where
  pub homes : List Home
  pub rooms : List Room
  pub devices : List Device
  pub states : List (DeviceState F)
  pub clients : List LocalClient
  -- how often it was asked, for the clock
  pub asked : ℕ

abbrev pub looked_up : {A : Type 0} → Option A → Result A
looked_up none = err (sentinel not_found)
looked_up (some a) = ok a

module _ {F : Type 0} where
  abbrev pub ask : Hub F → Hub F
  ask hub = record hub { asked = hub.asked + 1 }

  -- A change that is refused, or is made.
  abbrev pub change : String → Bool → (Hub F → Hub F) → Exec (Hub F) Unit
  change text refused f hub =
      if refused
      then (err (wrapped text (message "constraint failed")), ask hub)
      else (ok tt, f (ask hub))

  abbrev pub answer : {A : Type 0} → (Hub F → A) → Exec (Hub F) A
  answer f hub = (ok (f hub), ask hub)

  abbrev pub same_state : DeviceState F → DeviceState F → Bool
  same_state a b =
      a.device_id == b.device_id && nat_eq a.endpoint b.endpoint && a.capability == b.capability

  -- The new value, source and time under the key of an old state.
  abbrev pub renew : DeviceState F → List (DeviceState F) → List (DeviceState F)
  renew s [] = []
  renew s (x ∷ xs) =
      (if same_state x s
        then record x { value = s.value; source = s.source; updated_at = s.updated_at }
        else x)
      ∷ renew s xs

  abbrev pub put_state : DeviceState F → List (DeviceState F) → List (DeviceState F)
  put_state s xs = if any (λ x. same_state x s) xs then renew s xs else xs ++ s ∷ []

  abbrev pub state_first : DeviceState F → DeviceState F → Bool
  state_first a b =
      ltb a.endpoint b.endpoint
      || (nat_eq a.endpoint b.endpoint && text_le a.capability b.capability)

  -- with the value that its text is read as
  abbrev pub as_read : DeviceState F → Option (Value F) → DeviceState F
  as_read s none = s
  as_read s (some value) = record s { value = value }

  abbrev pub renewed : DeviceState F → Hub F → Hub F
  renewed s hub = record hub { states = put_state s hub.states }

  abbrev pub is_strange : DeviceState F → Hub F → Bool
  is_strange s hub =
      not (any (λ x. same_state x s) hub.states) && not (any (λ d. d.id == s.device_id) hub.devices)

abbrev pub use_at : String → ℕ → List LocalClient → List LocalClient
use_at id at [] = []
use_at id at (c ∷ cs) = (if c.id == id then record c { last_used = at } else c) ∷ use_at id at cs

module _ {F : Type 0} (engine : Engine F) where
  -- what was created at `a` is listed before what was created at `b`
  abbrev pub earlier : ℕ → ℕ → Bool
  earlier a b = text_le (engine.format_time a) (engine.format_time b)

  abbrev pub put_encoded : DeviceState F → Option String → Exec (Hub F) Unit
  put_encoded s none hub = (err (wrapped "encode device state" (message "json")), hub)
  put_encoded s (some encoded) hub =
      let read = as_read s (engine.unmarshal encoded) in
      change "upsert device state" (is_strange read hub) (renewed read) hub

  -- A home, a room, a device or a client has an id of its own, a device a node and a client a token hash
  -- of its own; a room is of a home that there is, a device of a home and of a room, if it has one, that
  -- there are, a state of a device that there is. The latest state of a device, endpoint and capability
  -- counts, with its value as its JSON text is read.
  abbrev pub spec : Store (Hub F) F
  spec = record {
    create_home = λ home hub.
        change "create home" (any (λ h. h.id == home.id) hub.homes)
          (λ h. record h { homes = h.homes ++ home ∷ [] }) hub;
    list_homes = answer λ hub. order_by (λ a b. earlier a.created_at b.created_at) hub.homes;
    create_room = λ room hub.
        change "create room"
          (any (λ r. r.id == room.id) hub.rooms || not (any (λ h. h.id == room.home_id) hub.homes))
          (λ h. record h { rooms = h.rooms ++ room ∷ [] }) hub;
    list_rooms = λ home_id. answer λ hub.
        order_by (λ a b. earlier a.created_at b.created_at)
          (select (λ r. r.home_id == home_id) hub.rooms);
    create_device = λ device hub.
        change "create device"
          (any (λ d. d.id == device.id) hub.devices
            || not (
                holds_if_set (λ node. not (any (λ d. opt_eq d.external_node_id node) hub.devices))
                  device.external_node_id)
            || not (
                any (λ h. h.id == device.home_id) hub.homes
                && holds_if_set (λ room. any (λ r. r.id == room) hub.rooms) device.room_id))
          (λ h. record h { devices = h.devices ++ device ∷ [] }) hub;
    get_device = λ id hub. (looked_up (find (λ d. d.id == id) hub.devices), ask hub);
    get_device_by_external_node_id =
        λ node hub. (looked_up (find (λ d. opt_eq d.external_node_id node) hub.devices), ask hub);
    list_devices = λ home_id. answer λ hub.
        order_by (λ a b. earlier a.created_at b.created_at)
          (select (λ d. d.home_id == home_id) hub.devices);
    upsert_device_state = λ s. put_encoded s (engine.marshal s.value);
    list_device_states =
        λ id. answer λ hub. order_by state_first (select (λ s. s.device_id == id) hub.states);
    create_local_client = λ client hub.
        change "create local client"
          (any (λ c. c.id == client.id || c.token_hash == client.token_hash) hub.clients)
          (λ h. record h { clients = h.clients ++ client ∷ [] }) hub;
    get_local_client_by_token_hash =
        λ hash hub. (looked_up (find (λ c. c.token_hash == hash) hub.clients), ask hub);
    touch_local_client = λ id hub.
        (ok tt, record (ask hub) { clients = use_at id (engine.clock hub.asked) hub.clients });
  }
