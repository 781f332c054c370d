-- ===== src/Matterjs/Listener/Keeping.antt =====
-- What the handler keeps, the listener keeps.
use manisa_app.Prelude.{String, Bool, true, List, [], ◌∷◌}
use manisa_app.Domain.Error.{Exec}
use manisa_app.Matter.{AttributeEvent}
use manisa_app.Application.World.{lift, wrapping}
use manisa_app.Application.Keeps.{
  Keeps, keeps_rules, Keeps-lift, Keeps-option, Keeps-bind, Keeps-wrapping,
}
use manisa_app.Matterjs.Wire.{WireEvent, Frame}
use manisa_app.Matterjs.Listener.{
  EventJson, dispatch_attributes, dispatch_node, dispatch_nodes, dispatch_initial, handle_event,
  handle_frame, listen, node_id_from_raw,
}

module _ {F W : Type 0} (json : EventJson F) (handler : AttributeEvent F → Exec W Unit)
    (I : W → Type 0) (kept : (event : AttributeEvent F) → Keeps I (handler event)) where
  dispatch_attributes-Keeps :
      (node : String) (initial : Bool) (attributes : List (String × String))
      → Keeps I (dispatch_attributes json handler node initial attributes)
  unfolding dispatch_attributes
  dispatch_attributes-Keeps node initial [] = search keeps_rules
  dispatch_attributes-Keeps node initial ((path, raw) ∷ more) =
      let later = dispatch_attributes-Keeps node initial more in
      Keeps-bind _ _ (Keeps-wrapping _ _ (Keeps-lift _))
        λ value. Keeps-bind _ _ (Keeps-wrapping _ _ (kept _)) λ done. later

  dispatch_node-Keeps :
      (initial : Bool) (raw : String) → Keeps I (dispatch_node json handler initial raw)
  unfolding dispatch_node
  dispatch_node-Keeps initial raw =
      Keeps-bind (wrapping "decode matter node" (lift (json.node raw))) _ (search keeps_rules)
        λ (read : String × List (String × String)).
          Keeps-bind (wrapping "decode matter node id" (lift (node_id_from_raw json read.0))) _
            (search keeps_rules) (λ node. dispatch_attributes-Keeps node initial read.1)

  dispatch_nodes-Keeps : (raws : List String) → Keeps I (dispatch_nodes json handler raws)
  unfolding dispatch_nodes
  dispatch_nodes-Keeps [] = search keeps_rules
  dispatch_nodes-Keeps (raw ∷ more) =
      Keeps-bind _ _ (dispatch_node-Keeps true raw) λ done. dispatch_nodes-Keeps more

  pub dispatch_initial-Keeps : (raw : String) → Keeps I (dispatch_initial json handler raw)
  unfolding dispatch_initial
  dispatch_initial-Keeps raw =
      Keeps-bind _ _ (Keeps-wrapping _ _ (Keeps-lift _)) dispatch_nodes-Keeps

  handle_event-Keeps : (e : WireEvent) → Keeps I (handle_event json handler e)
  unfolding handle_event
  handle_event-Keeps e = search (keeps_rules, kept, dispatch_node-Keeps) depth 12

  handle_frame-Keeps : (f : Frame) → Keeps I (handle_frame json handler f)
  unfolding handle_frame
  handle_frame-Keeps f = Keeps-option f.event _ _ (Keeps-lift _) handle_event-Keeps

  pub listen-Keeps : (frames : List Frame) → Keeps I (listen json handler frames)
  unfolding listen
  listen-Keeps [] = search keeps_rules
  listen-Keeps (f ∷ more) = Keeps-bind _ _ (handle_frame-Keeps f) λ done. listen-Keeps more
