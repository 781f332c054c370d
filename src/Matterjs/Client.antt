-- ===== src/Matterjs/Client.antt =====
-- internal/adapters/matterjs/client.go, from an open connection on. JSON is a parameter, a message's
-- result its text.
use Prim.Native.Char.{code}
use manisa_app.Prelude.{
  ℕ, ◌-◌, String, Bool, true, false, not, Option, none, some, List, [], ◌∷◌, ◌++◌, ◌==◌, nat_eq,
  if◌then◌else◌,
}
use manisa_app.Value.{str, bool, uint16, uint32, uint64, nil, object, Entries, done, entry, Params}
use manisa_app.Domain.Error.{Exec, Result, ok, err, message, wrapped, sentinel, server_error}
use manisa_app.Text.Trim.{trim_space}
use manisa_app.Text.Number.{parse_uint, format_uint}
use manisa_app.Matterjs.Wire.{WireResponse, Frame, Link}
use manisa_app.Matter.{CommissionRequest, Command}
use manisa_app.Application.EventBus.{add_one}
use manisa_app.Application.World.{pure, ◌>>=◌, ◌>>◌, wrapping}

-- what a response with the right id answers
abbrev pub reply : WireResponse → Result String
reply response = elim response.error_code [
  | none ↦ ok response.result
  | some n ↦ err (wrapped response.details (sentinel server_error))
]

-- the loop of `call`: messages with another id are skipped
unfoldable pub await : String → List Frame → Result String × List Frame
await id [] = (err (wrapped "read response" (message "connection")), [])
await id (frame ∷ rest) =
    let later = await id rest in
    elim frame.response [
      | none ↦ (err (wrapped "read response" (message "json")), [])
      | some response ↦ if not (response.message_id == id) then later else (reply response, rest)
    ]

-- encoding/json on a raw message: the member node_id of an object, `none` if there is none, and the text
-- of a string
pub record Json : Type 0 where
  pub node_id : String → Result (Option String)
  pub text : String → Result String

abbrev pub is_quoted : String → Bool
is_quoted String.[] = false
is_quoted (String.◌∷◌ c s) = nat_eq (code c) 34

-- strconv.ParseUint(s, 10, 64), for its error only
abbrev pub checked : String → Result String
checked s = elim (parse_uint 64 s) [ none ↦ err (message "ParseUint") | some n ↦ ok s ]

abbrev pub checked_text : Result String → Result String
checked_text (ok s) = checked s
checked_text (err e) = err e

-- nodeIDFromResult
unfoldable pub node_id_from_result : Json → String → Result String
node_id_from_result json raw = elim (json.node_id raw) [
  | err e ↦ err e
  | ok none ↦ err (message "node_id missing")
  | ok (some member) ↦
      let value = trim_space member in
      if value == ""
      then err (message "node_id empty")
      else if is_quoted value
      then checked_text (json.text value)
      else checked value
]

-- parseNodeID
unfoldable pub parse_node_id : String → Result ℕ
parse_node_id node = elim (parse_uint 64 (trim_space node)) [
  | none ↦ err (wrapped "invalid matter node id" (message "ParseUint"))
  | some id ↦ ok id
]

module _ {F : Type 0} where
  unfoldable pub call : String → Params F → Exec (Link F) String
  call command args link =
      let n = add_one link.next_id in
      let id = format_uint n in
      let (r, rest) = await id link.incoming in
      if nat_eq link.writable 0
      then (err (wrapped "write request" (message "connection")), record link { next_id = n })
      else (
        r,
        record link {
          next_id = n;
          sent = link.sent ++ record { message_id = id; command = command; args = args } ∷ [];
          incoming = rest;
          writable = link.writable - 1;
        },
      )

  abbrev pub set_wifi : CommissionRequest → Exec (Link F) Unit
  set_wifi req = if req.wifi_ssid == "" then pure tt else do
    _ ← wrapping "set wifi credentials" (
        call "set_wifi_credentials"
          (("ssid", str req.wifi_ssid) ∷ ("credentials", str req.wifi_password) ∷ []))
    pure tt

  abbrev pub set_thread : CommissionRequest → Exec (Link F) Unit
  set_thread req = if req.thread_dataset == "" then pure tt else do
    _ ←
        wrapping "set thread dataset"
          (call "set_thread_dataset" (("dataset", str req.thread_dataset) ∷ []))
    pure tt

  abbrev pub commission_args : CommissionRequest → Params F
  commission_args req =
      ("code", str req.setup_payload)
      ∷ (if req.network_only then ("network_only", bool true) ∷ [] else [])

  -- the function that `Commission` runs on its connection
  abbrev pub commission_call : CommissionRequest → Exec (Link F) String
  commission_call req = do
    set_wifi req
    set_thread req
    call "commission_with_code" (commission_args req)

  -- the function that `RemoveNode` runs on its connection
  abbrev pub remove_node_call : ℕ → Exec (Link F) Unit
  remove_node_call id = do _ ← call "remove_node" (("node_id", uint64 id) ∷ []); pure tt

  abbrev pub entries : Params F → Entries F
  entries [] = done
  entries ((k, v) ∷ params) = entry k v (entries params)

  abbrev pub device_args : ℕ → Command F → Params F
  device_args id command =
      ("node_id", uint64 id)
      ∷ ("endpoint_id", uint16 command.endpoint)
      ∷ ("cluster_id", uint32 command.cluster_id)
      ∷ ("command_name", str command.name)
      ∷ ("payload", object (entries command.payload))
      ∷ ("response_type", nil)
      ∷ []

  -- the function that `Execute` runs on its connection
  abbrev pub execute_call : ℕ → Command F → Exec (Link F) Unit
  execute_call id command = do _ ← call "device_command" (device_args id command); pure tt
