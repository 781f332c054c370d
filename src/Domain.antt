-- ===== src/Domain.antt =====
-- internal/domain/models.go: the records of the product model. A time is the number of nanoseconds
-- since the zero time.Time; a *string is an `Option`.
pub mod Error
pub mod Store
use manisa_app.Prelude.{ℕ, String, Bool, Option, List}
use manisa_app.Value.{Value, Params}

abbrev pub Time : Type 0
Time = ℕ

pub record Home : Type 0 where
  pub id : String
  pub name : String
  pub created_at : Time
  pub updated_at : Time

pub record Room : Type 0 where
  pub id : String
  pub home_id : String
  pub name : String
  pub created_at : Time
  pub updated_at : Time

pub record Device : Type 0 where
  pub id : String
  pub home_id : String
  pub room_id : Option String
  pub name : String
  pub product_type : String
  pub transport : String
  pub external_node_id : Option String
  pub created_at : Time
  pub updated_at : Time

pub record DeviceState (F : Type 0) : Type 0 where
  pub device_id : String
  pub endpoint : ℕ
  pub capability : String
  pub value : Value F
  pub source : String
  pub updated_at : Time

pub record LocalClient : Type 0 where
  pub id : String
  pub name : String
  pub token_hash : String
  pub created_at : Time
  pub last_used : Time

pub record RealtimeEvent (F : Type 0) : Type 0 where
  pub sequence : ℕ
  pub kind : String
  pub device_id : String
  pub endpoint : ℕ
  pub capability : String
  pub value : Value F
  pub source : String
  pub initial : Bool
  pub timestamp : Time

-- The metadata of the catalog holds no floats.
pub record CapabilityDescriptor : Type 0 where
  pub id : String
  pub readable : Bool
  pub writable : Bool
  pub metadata : Params ⊥

pub record EndpointDescriptor : Type 0 where
  pub id : ℕ
  pub name : String
  pub capabilities : List CapabilityDescriptor

pub record DeviceDescriptor : Type 0 where
  pub product_type : String
  pub display_name : String
  pub category : String
  pub endpoints : List EndpointDescriptor

abbrev pub transport_matter_wifi : String
transport_matter_wifi = "matter_wifi"

abbrev pub transport_matter_thread : String
transport_matter_thread = "matter_thread"
