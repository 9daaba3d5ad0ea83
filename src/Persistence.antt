-- ===== src/Persistence.antt =====
-- media_catalog/persistence: the remote part of the catalog's tables and the writes to them.
pub mod Tables
pub mod Raw
pub mod Runs
pub mod Rows
pub mod Last
pub mod RunLaws
