-- ===== src/HttpApi/Requests.antt =====
-- internal/httpapi/router.go: the bodies of requests, and how they are decoded and handed on.
use manisa_app.Prelude.{ℕ, zero, suc, ◌^◌, String, Bool, Option, List, [], ◌∷◌, length, ltb}
use manisa_app.Value.{Params}
use manisa_app.Application.Command.{DeviceCommandInput}
use manisa_app.Application.Devices.{CommissionDeviceInput}

pub record CreateHomeRequest : Type 0 where
  pub name : String

pub record CreateRoomRequest : Type 0 where
  pub home_id : String
  pub name : String

pub record CreateDeviceRequest : Type 0 where
  pub home_id : String
  pub room_id : Option String
  pub name : String
  pub product_type : String
  pub transport : String

pub record PairRequest : Type 0 where
  pub code : String
  pub client_name : String

pub record CommissionMatterRequest : Type 0 where
  pub home_id : String
  pub room_id : Option String
  pub name : String
  pub product_type : String
  pub transport : String
  pub setup_payload : String
  pub wifi_ssid : String
  pub wifi_password : String
  pub thread_dataset : String
  pub network_only : Bool

-- `endpoint` is a uint16.
pub record DeviceCommandRequest (F : Type 0) : Type 0 where
  pub endpoint : ℕ
  pub capability : String
  pub action : String
  pub params : Params F

-- The inputs that the handlers make of the two last.
abbrev pub commission_input : CommissionMatterRequest → CommissionDeviceInput
commission_input req = record {
  home_id = req.home_id;
  room_id = req.room_id;
  name = req.name;
  product_type = req.product_type;
  transport = req.transport;
  setup_payload = req.setup_payload;
  wifi_ssid = req.wifi_ssid;
  wifi_password = req.wifi_password;
  thread_dataset = req.thread_dataset;
  network_only = req.network_only;
}

abbrev pub command_input : {F : Type 0} → DeviceCommandRequest F → DeviceCommandInput F
command_input req = record {
  endpoint = req.endpoint;
  capability = req.capability;
  action = req.action;
  params = req.params;
}

-- json.Decoder.Decode with DisallowUnknownFields: of the bytes that the reader gives, and of whether an
-- error comes after them and not the end; `none` for an error.
abbrev pub Decoder : Type 0 → Type 0
Decoder A = List ℕ → Bool → Option A

abbrev pub max_body : ℕ
max_body = 2 ^ 20

abbrev pub take : {A : Type 0} → ℕ → List A → List A
take zero xs = []
take (suc n) [] = []
take (suc n) (x ∷ xs) = x ∷ take n xs

-- decodeJSON: http.MaxBytesReader gives the bytes up to the limit, and an error if there are more.
unfoldable pub decode_json : {A : Type 0} → Decoder A → List ℕ → Option A
decode_json decode body = decode (take max_body body) (ltb max_body (length body))

-- The decoders of the requests' types.
pub record Codec (F : Type 0) : Type 0 where
  pub pair_request : Decoder PairRequest
  pub create_home_request : Decoder CreateHomeRequest
  pub create_room_request : Decoder CreateRoomRequest
  pub create_device_request : Decoder CreateDeviceRequest
  pub commission_request : Decoder CommissionMatterRequest
  pub command_request : Decoder (DeviceCommandRequest F)

pub record Request : Type 0 where
  pub method : String
  pub path : String
  -- the parameter homeId of the query, and the header Authorization; "" if there is none
  pub home_id : String
  pub authorization : String
  -- its bytes
  pub body : List ℕ
