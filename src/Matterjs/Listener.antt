-- ===== src/Matterjs/Listener.antt =====
-- internal/adapters/matterjs/listener.go: what the Matter server reports goes to a handler, which
-- changes a state. The messages to be read are given, until reading fails; JSON is a parameter, and the
-- attributes of a node stand in the order in which they are enumerated.
pub mod Keeping
pub mod Alike
use manisa_app.Prelude.{
  ◌≡◌, refl, String, Bool, true, false, ◌||◌, Option, none, some, List, [], ◌∷◌, ◌++◌, ◌==◌,
  if◌then◌else◌,
}
use manisa_app.Value.{Value}
use manisa_app.Domain.Error.{Exec, Result, ok, err, message, wrapped}
use manisa_app.Text.Trim.{trim_space}
use manisa_app.Matter.{AttributeEvent}
use manisa_app.Application.World.{pure, lift, ◌>>=◌, ◌>>◌, wrapping}
use manisa_app.Matterjs.Wire.{WireEvent, Frame}
use manisa_app.Matterjs.Client.{is_quoted, checked}

-- encoding/json: an array's elements, a string, a value with its numbers as json.Number, a list of
-- nodes, and a node's id with its attributes
pub record EventJson (F : Type 0) : Type 0 where
  pub parts : String → Result (List String)
  pub text : String → Result String
  pub value : String → Result (Value F)
  pub node : String → Result (String × List (String × String))

abbrev trimmed_id : Result String → Result String
trimmed_id (ok s) = checked (trim_space s)
trimmed_id (err e) = err e

module _ {F : Type 0} (json : EventJson F) where
  -- nodeIDFromRaw
  unfoldable pub node_id_from_raw : String → Result String
  node_id_from_raw raw =
      let value = trim_space raw in
      if value == ""
      then err (message "node id empty")
      else if is_quoted value
      then trimmed_id (json.text value)
      else checked value

  -- decodeAttributeEvent, from the parts on
  unfoldable pub decode_parts : Bool → Result (List String) → Result (AttributeEvent F)
  decode_parts initial (ok (a ∷ b ∷ c ∷ [])) = elim (node_id_from_raw a) [
    | err e ↦ err e
    | ok node ↦ elim (json.text b) [
      | err e ↦ err e
      | ok path ↦ elim (json.value c) [
        | err e ↦ err e
        | ok value ↦ ok (record { node_id = node; path = path; value = value; initial = initial })
      ]
    ]
  ]
  decode_parts initial (ok _) = err (message "expected 3 event fields")
  decode_parts initial (err e) = err e

  -- decodeAttributeEvent
  unfoldable pub decode_attribute_event : Bool → String → Result (AttributeEvent F)
  decode_attribute_event initial raw = decode_parts initial (json.parts raw)

  module _ {W : Type 0} (handler : AttributeEvent F → Exec W Unit) where
    -- the loop over a node's attributes
    unfoldable pub dispatch_attributes : String → Bool → List (String × String) → Exec W Unit
    dispatch_attributes node initial [] = pure tt
    dispatch_attributes node initial ((path, raw) ∷ more) = do
      value ← wrapping "decode matter attribute" (lift (json.value raw))
      wrapping "handle matter attribute"
          (handler (record { node_id = node; path = path; value = value; initial = initial }))
      dispatch_attributes node initial more

    -- dispatchNodeAttributes
    unfoldable pub dispatch_node : Bool → String → Exec W Unit
    dispatch_node initial raw = do
      (id, attributes) ← wrapping "decode matter node" (lift (json.node raw))
      node ← wrapping "decode matter node id" (lift (node_id_from_raw id))
      dispatch_attributes node initial attributes

    -- dispatchInitialAttributes, its loop
    unfoldable pub dispatch_nodes : List String → Exec W Unit
    dispatch_nodes [] = pure tt
    dispatch_nodes (raw ∷ more) = do dispatch_node true raw; dispatch_nodes more

    -- dispatchInitialAttributes
    unfoldable pub dispatch_initial : String → Exec W Unit
    dispatch_initial raw = do
      nodes ← wrapping "decode initial matter nodes" (lift (json.parts raw))
      dispatch_nodes nodes

    unfoldable pub handle_event : WireEvent → Exec W Unit
    handle_event e =
        if e.event == "attribute_updated"
        then (do
          attribute ←
              wrapping "decode matter attribute event"
                (lift (decode_attribute_event false e.payload))
          wrapping "handle matter attribute event" (handler attribute))
        else if e.event == "node_added" || e.event == "node_updated"
        then wrapping "handle event" (dispatch_node false e.payload)
        else if e.event == "server_shutdown"
        then lift (err (message "matter server shutdown"))
        else pure tt

    -- what reading a message of the loop of `Listen` leads to
    unfoldable pub handle_frame : Frame → Exec W Unit
    handle_frame f = elim f.event [
      | none ↦ lift (err (wrapped "read matter event" (message "json")))
      | some e ↦ handle_event e
    ]

    -- the loop of `Listen`; it ends with an error
    unfoldable pub listen : List Frame → Exec W Unit
    listen [] = lift (err (wrapped "read matter event" (message "connection")))
    listen (f ∷ more) = do handle_frame f; listen more

    -- the states after handling reports one after the other
    abbrev pub Handles : W → List (AttributeEvent F) → W → Type 0
    Handles w [] w' = w' ≡ w
    Handles w (a ∷ rest) w' = (v : W) × (handler a w ≡ (ok tt, v)) × Handles v rest w'

    -- the message that brings a report
    abbrev pub Brings : Frame → AttributeEvent F → Type 0
    Brings f a =
        (e : WireEvent) × (f.event ≡ some e)
        × (e.event ≡ "attribute_updated")
        × (decode_attribute_event false e.payload ≡ ok a)

    abbrev pub AllBring : List Frame → List (AttributeEvent F) → Type 0
    AllBring [] [] = Unit
    AllBring (f ∷ fs) (a ∷ rest) = Brings f a × AllBring fs rest
    AllBring _ _ = ⊥

    -- Messages that bring reports which the handler accepts are handled one after the other, in their
    -- order, and none is dropped, before what is read next.
    pub listen_in_order :
        (fs more : List Frame) (reports : List (AttributeEvent F)) (w w' : W)
        → AllBring fs reports
        → Handles w reports w'
        → listen (fs ++ more) w ≡ listen more w'
    unfolding listen handle_frame handle_event
    listen_in_order [] more [] w w' b h = rw h refl
    listen_in_order [] more (a ∷ rest) w w' b h = absurd b
    listen_in_order (f ∷ fs) more [] w w' b h = absurd b
    listen_in_order (f ∷ fs) more (a ∷ rest) w w' ((e, is, kind, decoded), bs) (v, handled, hs) =
        let later = listen_in_order fs more rest v w' bs hs in
        rw (is, kind, decoded, ◌>>=◌, handled) later
