-- ===== src/Capability.antt =====
-- internal/capability: the catalog of products, and the states that Matter attributes stand for.
pub mod Catalog
pub mod State
