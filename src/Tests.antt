-- ===== src/Tests.antt =====
-- The theorems at concrete inputs.
pub mod Data
pub mod Sync
pub mod Catalog
pub mod Urls
pub mod Marks
pub mod Reviews
pub mod Identities
pub mod Lineages
pub mod Transfers
pub mod Recipes
