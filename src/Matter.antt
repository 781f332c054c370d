-- ===== src/Matter.antt =====
-- internal/matter: the controller interface, over the type `C` of its states, and the events.
use manisa_app.Prelude.{ℕ, String, Bool}
use manisa_app.Value.{Value, Params}
use manisa_app.Domain.Error.{Exec}

pub record CommissionRequest : Type 0 where
  pub setup_payload : String
  pub wifi_ssid : String
  pub wifi_password : String
  pub thread_dataset : String
  pub network_only : Bool

pub record Command (F : Type 0) : Type 0 where
  pub endpoint : ℕ
  pub cluster_id : ℕ
  pub name : String
  pub payload : Params F

pub record Controller (C F : Type 0) : Type 0 where
  -- the new node's id
  pub commission : CommissionRequest → Exec C String
  pub remove_node : String → Exec C Unit
  pub execute : String → Command F → Exec C Unit

pub record AttributeEvent (F : Type 0) : Type 0 where
  pub node_id : String
  pub path : String
  pub value : Value F
  pub initial : Bool
