-- ===== src/Matterjs/Listener/Alike.antt =====
-- Where handlers answer alike, the listener does.
use manisa_app.Prelude.{String, Bool, true, List, [], ◌∷◌}
use manisa_app.Domain.Error.{Exec}
use manisa_app.Matter.{AttributeEvent}
use manisa_app.Application.World.{lift, wrapping}
use manisa_app.Application.Simulates.{
  Simulates, simulates_rules, Simulates-lift, Simulates-option, Simulates-bind, Simulates-wrapping,
}
use manisa_app.Matterjs.Wire.{WireEvent, Frame}
use manisa_app.Matterjs.Listener.{
  EventJson, dispatch_attributes, dispatch_node, dispatch_nodes, dispatch_initial, handle_event,
  handle_frame, listen, node_id_from_raw,
}

module _ {F W V : Type 0} (json : EventJson F) (handler : AttributeEvent F → Exec W Unit)
    (other : AttributeEvent F → Exec V Unit) (R : W → V → Type 0)
    (alike : (event : AttributeEvent F) → Simulates R (handler event) (other event)) where
  dispatch_attributes-Simulates :
      (node : String) (initial : Bool) (attributes : List (String × String))
      → Simulates R
          (dispatch_attributes json handler node initial attributes)
          (dispatch_attributes json other node initial attributes)
  unfolding dispatch_attributes
  dispatch_attributes-Simulates node initial [] = search simulates_rules
  dispatch_attributes-Simulates node initial ((path, raw) ∷ more) =
      let later = dispatch_attributes-Simulates node initial more in
      Simulates-bind _ _ _ _ (Simulates-wrapping _ _ _ (Simulates-lift _))
        λ value. Simulates-bind _ _ _ _ (Simulates-wrapping _ _ _ (alike _)) λ done. later

  dispatch_node-Simulates :
      (initial : Bool) (raw : String)
      → Simulates R (dispatch_node json handler initial raw) (dispatch_node json other initial raw)
  unfolding dispatch_node
  dispatch_node-Simulates initial raw =
      Simulates-bind (wrapping "decode matter node" (lift (json.node raw)))
        (wrapping "decode matter node" (lift (json.node raw))) _ _ (search simulates_rules)
        λ (read : String × List (String × String)).
          Simulates-bind (wrapping "decode matter node id" (lift (node_id_from_raw json read.0)))
            (wrapping "decode matter node id" (lift (node_id_from_raw json read.0))) _ _
            (search simulates_rules) (λ node. dispatch_attributes-Simulates node initial read.1)

  dispatch_nodes-Simulates :
      (raws : List String)
      → Simulates R (dispatch_nodes json handler raws) (dispatch_nodes json other raws)
  unfolding dispatch_nodes
  dispatch_nodes-Simulates [] = search simulates_rules
  dispatch_nodes-Simulates (raw ∷ more) =
      Simulates-bind _ _ _ _ (dispatch_node-Simulates true raw)
        λ done. dispatch_nodes-Simulates more

  pub dispatch_initial-Simulates :
      (raw : String)
      → Simulates R (dispatch_initial json handler raw) (dispatch_initial json other raw)
  unfolding dispatch_initial
  dispatch_initial-Simulates raw =
      Simulates-bind _ _ _ _ (Simulates-wrapping _ _ _ (Simulates-lift _)) dispatch_nodes-Simulates

  handle_event-Simulates :
      (e : WireEvent) → Simulates R (handle_event json handler e) (handle_event json other e)
  unfolding handle_event
  handle_event-Simulates e = search (simulates_rules, alike, dispatch_node-Simulates) depth 12

  handle_frame-Simulates :
      (f : Frame) → Simulates R (handle_frame json handler f) (handle_frame json other f)
  unfolding handle_frame
  handle_frame-Simulates f =
      Simulates-option f.event _ _ _ _ (Simulates-lift _) handle_event-Simulates

  pub listen-Simulates :
      (frames : List Frame) → Simulates R (listen json handler frames) (listen json other frames)
  unfolding listen
  listen-Simulates [] = search simulates_rules
  listen-Simulates (f ∷ more) =
      Simulates-bind _ _ _ _ (handle_frame-Simulates f) λ done. listen-Simulates more
