-- ===== src/RemoteSync.antt =====
-- media_catalog/remote_sync: bounded remote synchronization.
pub mod Types
pub mod Stored
pub mod Session
pub mod Budget
pub mod Gate
pub mod Executor
pub mod Service
