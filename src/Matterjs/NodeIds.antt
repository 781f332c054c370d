-- ===== src/Matterjs/NodeIds.antt =====
-- The ids that the server gives are ids that it can be given back.
use manisa_app.Prelude.{
  ℕ, ◌<◌, ◌^◌, ◌≡◌, refl, inl, inr, String, none, some, ◌==◌, arith, Bool-cases, Option-cases,
}
use manisa_app.Domain.Error.{Result, ok, err}
use manisa_app.Text.Trim.{trim_space, trim_space_of_IsPlain}
use manisa_app.Text.Number.{parse_uint, parse_uint-lt, parse_uint-IsPlain}
use manisa_app.Application.World.{Result-cases}
use manisa_app.Matterjs.Client.{
  Json, is_quoted, checked, checked_text, node_id_from_result, parse_node_id,
}

abbrev IsNodeId : String → Type 0
IsNodeId node = (n : ℕ) × (parse_node_id node ≡ ok n) × (n < 2 ^ 64)

checked-IsNodeId : (s node : String) → checked s ≡ ok node → IsNodeId node
unfolding parse_node_id
checked-IsNodeId s node h = elim (Option-cases (parse_uint 64 s)) [
  | inl refused ↦ ground arith
  | inr (n, read) ↦
      let same : node ≡ s = ground arith in
      let plain = trim_space_of_IsPlain s (parse_uint-IsPlain 64 n s read) in
      rw same (n, rw (parse_node_id, plain, read) refl, parse_uint-lt 64 s n read)
]

checked_text-IsNodeId :
    (r : Result String) (node : String) → checked_text r ≡ ok node → IsNodeId node
checked_text-IsNodeId (ok s) node h = checked-IsNodeId s node h
checked_text-IsNodeId (err e) node h = cc

-- The id that a commissioning result gives, if it is accepted, is read by `parseNodeID` as a number of
-- 64 bits.
pub node_id_from_result-IsNodeId :
    (json : Json) (raw node : String)
    → node_id_from_result json raw ≡ ok node
    → (n : ℕ) × (parse_node_id node ≡ ok n) × (n < 2 ^ 64)
unfolding node_id_from_result
node_id_from_result-IsNodeId json raw node h = elim (Result-cases (json.node_id raw)) [
  | inr (e, failed) ↦ ground arith
  | inl (none, missing) ↦ ground arith
  | inl (some member, found) ↦ elim (Bool-cases (trim_space member == "")) [
    | inl empty ↦ ground arith
    | inr full ↦ elim (Bool-cases (is_quoted (trim_space member))) [
      | inl quoted ↦ checked_text-IsNodeId (json.text (trim_space member)) node (ground arith)
      | inr bare ↦ checked-IsNodeId (trim_space member) node (ground arith)
    ]
  ]
]
