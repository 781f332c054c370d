-- ===== src/Storage.antt =====
-- internal/storage/sqlite: the store over an SQLite database.
pub mod Tables
pub mod Engine
pub mod Open
pub mod Sqlite
pub mod States
pub mod Rows
pub mod Upserts
pub mod Lookups
pub mod Statements
pub mod Integrity
pub mod References
pub mod Keeping
pub mod Effects
pub mod Listing
pub mod Lasting
pub mod Refine
pub mod Spec
