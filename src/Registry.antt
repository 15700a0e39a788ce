-- ===== src/Registry.antt =====
-- contracts/registry/src/lib.rs: the registry of assets, its operations and their properties.
pub mod State
pub mod Assets
pub mod Pages
pub mod Admin
pub mod Calls
pub mod Totals
pub mod Histories
pub mod Catalog
pub mod CatalogChanges
pub mod CatalogEntries
pub mod CatalogHistories
pub mod Paging
pub mod Authority
mod Tests
