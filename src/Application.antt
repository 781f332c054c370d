-- ===== src/Application.antt =====
-- internal/application: the service that the API and the Matter events call.
pub mod Command
pub mod EventBus
pub mod World
pub mod Keeps
pub mod Simulates
pub mod Shared
pub mod Homes
pub mod Devices
pub mod Attributes
