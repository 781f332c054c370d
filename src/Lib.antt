-- ===== src/Lib.antt =====
-- Manisa Core: a hub that joins Matter devices to a home and serves them to local clients, in Go.
-- These modules model its core and prove what makes it correct.
--
-- The parts, and the files that model them:
-- - internal/domain: the data of the program and the interface of the store. Domain.antt has the
--   structs as records, Domain/Error.antt the errors with errors.Is and the wrapping of
--   fmt.Errorf, Domain/Store.antt the interface Store as a record of operations on a state.
-- - internal/matter: the Matter controller as an interface, and the reports of attributes, in
--   Matter.antt.
-- - internal/capability: Capability/Catalog.antt has the product catalog (Get, List, Supports),
--   Capability/State.antt the way from a report to a state (FromMatterAttribute).
-- - internal/application: Application/World.antt has the service's state and the monad of its
--   methods; Homes, Devices and Attributes have the methods of service.go (createDevice is
--   register_device), Command has mapDeviceCommand and numericParam, EventBus has eventbus.go.
-- - internal/platform/id: Platform/Id.antt.
-- - internal/storage/sqlite: Storage/Tables.antt has the schema's tables and the effect of each
--   statement on them, Storage/Engine.antt how a statement is run, Storage/Sqlite.antt and
--   Storage/States.antt the methods of Store and the record that implements the interface,
--   Storage/Open.antt the opening of the file. Storage/Refine.antt says what the table of device
--   states means, as a finite map, and Storage/Spec.antt what a store is for: the same interface over
--   plain lists of the program's own data (Hub), which the methods over SQLite are compared with in
--   Storage/Spec/.
-- - internal/auth: Auth.antt has Pair and Authenticate over any store.
-- - internal/httpapi: HttpApi/Route.antt has the routes, HttpApi/Requests.antt the bodies and
--   decodeJSON, HttpApi/Handlers.antt the handlers, requireLocalAuth and NewRouter,
--   HttpApi/Events.antt the loop of serveEvents.
-- - internal/adapters/matterjs: Matterjs/Wire.antt has what goes over a connection,
--   Matterjs/Client.antt `call` and what is done over an open connection, Matterjs/Controller.antt
--   withConnection and the client as a Matter controller; Matterjs/Listener.antt has what listener.go
--   does with the messages that it reads, Matterjs/Stream.antt Listen from the connection on.
-- - internal/config, internal/discovery and cmd/manisa-core: Process/Config.antt has Load,
--   Process/Discovery.antt Start and portFromAddr, Process/Backoff.antt the loop of runMatterEvents,
--   Process/Lifecycle.antt what main does once its parts are made, up to the end of the process.
--   System.antt has the parts that main wires together, and what can happen to them in any order, from
--   the tables that earlier runs have left; System/Boot.antt has how main gets there.
--   System/Served.antt and System/States.antt follow a request from its token to the mux, and on to the
--   rows. System/Unlinked.antt has a room of a home that there is not, and the pool's connections.
--   System/Abstract.antt has the program as it reacts to a sequence of inputs, over SQLite and
--   over a Hub.
-- The service calls the store and the controller; a report of the controller becomes a row of the
-- store and an event of the bus, which the API writes to the clients that listen. The service is
-- modelled over any store and any controller, and Application/Keeps.antt has the rules by which what
-- every method of a store keeps is kept by the service, the API and the listener, and
-- Application/Simulates.antt those by which over two stores that answer alike they do the same;
-- Application/Attributes/Delivered.antt and Auth/RoundTrip.antt are about the SQLite store.
--
-- Go as it is used here: `any` is Value.antt; strings.TrimSpace, strings.Split, strconv.ParseUint and
-- the decimal text of a number, and base64, are under Text. An error is a value, and what was done
-- before it stays done. An unsigned counter wraps at 2 ^ 64. Each method of the event bus is one step.
-- In System.antt a request and a round of the listener are one step each, as is the handling of a single
-- report. They run in goroutines of their own: in System/Interleaved.antt others have statements run
-- between any two statements of such a step. Application/Shared.antt has the store as one goroutine sees
-- it, and Storage/Effects.antt what the others may do. Only the store is interleaved so: a call of the
-- Matter controller, with its reply, and a method of the event bus are not interrupted.
--
-- Parameters, for code that is not in the repository or for what the machine answers: the floating
-- point operations (Float.antt, where FloatLaws has the facts of IEEE 754 that theorems use; the exact
-- fractions of Float/Ratio.antt satisfy them), the SQLite driver with its failures and its choice of
-- connection, the text of a time, the JSON of a value and of a message, SHA-256, what ServeMux answers
-- where no pattern matches, the websocket handshake, what dialling ends in and which messages are read,
-- zeroconf, the outcomes of the steps that open the database, the clock and the random bytes.
--
-- No definition runs on fuel but the printing of a number, whose fuel is the number itself, and that is
-- enough as reading what was printed gives the number back (Text/Number.antt).
--
-- Rows that compare equal in ORDER BY stay in the order of insertion, which SQLite does not document.
--
-- Not modelled: the HTTP server itself, the headers and the JSON text of an answer, and the logs, which
-- are input and output; a signal that comes before main waits for it; the URL that the client dials; the
-- mobile app, which is another program.
pub mod Prelude
pub mod Text
pub mod Float
pub mod Value
pub mod Domain
pub mod Matter
pub mod Capability
pub mod Application
pub mod Platform
pub mod Storage
pub mod Auth
pub mod HttpApi
pub mod Matterjs
pub mod Process
pub mod System
mod Tests
