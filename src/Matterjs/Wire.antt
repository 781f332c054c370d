-- ===== src/Matterjs/Wire.antt =====
-- What goes over a websocket connection to the Matter server. A connection is what has been written to
-- it and the messages that will be read from it, until reading fails; a deadline that passes is one
-- more way to fail.
use manisa_app.Prelude.{ℕ, ℤ, String, Bool, Option, List, []}
use manisa_app.Value.{Params}

pub record WireRequest (F : Type 0) : Type 0 where
  pub message_id : String
  pub command : String
  pub args : Params F

pub record WireResponse : Type 0 where
  pub message_id : String
  pub result : String
  pub error_code : Option ℤ
  pub details : String

pub record WireEvent : Type 0 where
  pub event : String
  -- the field data
  pub payload : String

-- A message as encoding/json reads it: whether it is an object, and what it is as a response and as an
-- event, `none` where it cannot be decoded as one.
pub record Frame : Type 0 where
  pub is_object : Bool
  pub response : Option WireResponse
  pub event : Option WireEvent

-- An open connection. The counter is the client's, and outlives it, as does the record of what was sent.
pub record Link (F : Type 0) : Type 0 where
  pub next_id : ℕ
  pub sent : List (WireRequest F)
  pub incoming : List Frame
  -- how many messages can be written before writing fails
  pub writable : ℕ

-- what dialling the server ends in
pub data Dial : Type 0 where
  refused : Dial
  opened : (incoming : List Frame) → (writable : ℕ) → Dial

-- The client and the network: the outcomes of dialling to come, in order; after these it fails.
pub record Net (F : Type 0) : Type 0 where
  pub next_id : ℕ
  pub sent : List (WireRequest F)
  pub dials : List Dial

-- New; where it dials is not modelled
abbrev pub new_client : {F : Type 0} → List Dial → Net F
new_client dials = record { next_id = 0; sent = []; dials = dials }
