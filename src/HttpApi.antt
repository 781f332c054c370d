-- ===== src/HttpApi.antt =====
-- internal/httpapi/router.go: the HTTP API and the authentication in front of it.
pub mod Route
pub mod Requests
pub mod Handlers
pub mod Guard
pub mod Errors
pub mod Sound
pub mod Alike
pub mod Events
