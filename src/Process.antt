-- ===== src/Process.antt =====
-- internal/config and cmd/manisa-core: the configuration and the loop that listens to Matter.
pub mod Lifecycle
pub mod Config
pub mod Backoff
pub mod Discovery
