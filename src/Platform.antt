-- ===== src/Platform.antt =====
-- internal/platform
pub mod Id
