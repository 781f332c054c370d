-- ===== src/Matterjs/Stream.antt =====
-- `Listen` of internal/adapters/matterjs/listener.go: the event stream, from the connection on. The
-- handler changes the service's world, of which the client is the fabric.
pub mod Order
pub mod Alike
use manisa_app.Prelude.{String, Option, none, some, List, []}
use manisa_app.Domain.Error.{Exec, ok, err, message}
use manisa_app.Matter.{AttributeEvent}
use manisa_app.Application.World.{World, lift, ◌>>=◌, ◌>>◌, wrapping, on_matter}
use manisa_app.Application.Keeps.{Keeps, keeps_rules}
use manisa_app.Application.Keeps.Stores.{IsSound, Keeps-on_matter}
use manisa_app.Matterjs.Wire.{Frame, Link, Net}
use manisa_app.Matterjs.Client.{call}
use manisa_app.Matterjs.Controller.{server_info, dial, over}
use manisa_app.Matterjs.Listener.{EventJson, dispatch_initial, listen}
use manisa_app.Matterjs.Listener.Keeping.{dispatch_initial-Keeps, listen-Keeps}

module _ {F : Type 0} where
  -- The call that starts the stream: its answer, and what is left to be read.
  abbrev pub start_listening : Exec (Link F) (String × List Frame)
  start_listening link =
      let (r, link') = call "start_listening" [] link in
      (elim r [ ok raw ↦ ok (raw, link'.incoming) | err e ↦ err e ], link')

  module _ {S : Type 0} (json : EventJson F) where
    -- what follows the check of the handler in `Listen`
    unfoldable pub listen_with :
        (AttributeEvent F → Exec (World S (Net F) F) Unit) → Exec (World S (Net F) F) Unit
    listen_with handler = do
      (incoming, writable) ← wrapping "connect matter event stream" (on_matter dial)
      frames ← wrapping "read matter server info" (lift (server_info incoming))
      (raw, rest) ←
          wrapping "start matter event stream" (on_matter (over start_listening frames writable))
      dispatch_initial json handler raw
      listen json handler rest

    -- Listen; it ends with an error
    unfoldable pub listen_stream :
        Option (AttributeEvent F → Exec (World S (Net F) F) Unit) → Exec (World S (Net F) F) Unit
    listen_stream none = lift (err (message "matter event handler is required"))
    listen_stream (some handler) = listen_with handler

    pub listen_stream-Keeps :
        (P : S → Type 0) (handler : AttributeEvent F → Exec (World S (Net F) F) Unit)
        → ((event : AttributeEvent F) → Keeps (IsSound P) (handler event))
        → Keeps (IsSound P) (listen_stream (some handler))
    unfolding listen_stream listen_with
    listen_stream-Keeps P handler kept =
        let initial = dispatch_initial-Keeps json handler (IsSound P) kept in
        let later = listen-Keeps json handler (IsSound P) kept in
        search (keeps_rules, Keeps-on_matter, initial, later) depth 12
