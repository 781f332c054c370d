-- ===== src/Matterjs/Stream/Order.antt =====
-- A stream of reports, from the connection on: first the attributes that the server has when the client
-- starts to listen, then those that change.
use manisa_app.Prelude.{ℕ, ◌≡◌, String, Bool, true, List, [], ◌∷◌, ◌++◌}
use manisa_app.Domain.Error.{Exec, ok}
use manisa_app.Matter.{AttributeEvent}
use manisa_app.Application.World.{World, ◌>>=◌, ◌>>◌, wrapping, on_matter}
use manisa_app.Matterjs.Wire.{Frame, Net}
use manisa_app.Matterjs.Controller.{over}
use manisa_app.Matterjs.Listener.{EventJson, node_id_from_raw, dispatch_initial, listen}
use manisa_app.Matterjs.Stream.{start_listening}

module _ {F : Type 0} (json : EventJson F) where
  -- the reports of the attributes of a node
  abbrev pub AttributesBring :
      String → Bool → List (String × String) → List (AttributeEvent F) → Type 0
  AttributesBring node initial [] [] = Unit
  AttributesBring node initial ((path, raw) ∷ more) (a ∷ rest) =
      (json.value raw ≡ ok a.value)
      × (a ≡ record { node_id = node; path = path; value = a.value; initial = initial })
      × AttributesBring node initial more rest
  AttributesBring node initial _ _ = ⊥

  -- the reports of nodes, node by node
  abbrev pub NodesBring : List String → List (AttributeEvent F) → Type 0
  NodesBring [] reports = reports ≡ []
  NodesBring (raw ∷ more) reports =
      (id : String) × (attributes : List (String × String)) × (node : String) × (first : List
        (AttributeEvent F))
      × (rest : List (AttributeEvent F)) × (json.node raw ≡ ok (id, attributes))
      × (node_id_from_raw json id ≡ ok node)
      × AttributesBring node true attributes first
      × NodesBring more rest
      × (reports ≡ first ++ rest)

  module _ {S : Type 0} (handler : AttributeEvent F → Exec (World S (Net F) F) Unit) where
    abbrev begin : String × List Frame → Exec (World S (Net F) F) Unit
    begin (raw, rest) = dispatch_initial json handler raw >> listen json handler rest

    abbrev connect : List Frame → ℕ → Exec (World S (Net F) F) Unit
    connect frames writable =
        wrapping "start matter event stream" (on_matter (over start_listening frames writable))
        >>= begin
