-- ===== src/Catalog.antt =====
-- bridge/src/catalog: the export catalog.
pub mod Model
pub mod Alloc
pub mod Store
pub mod Persist
pub mod Load
pub mod Examples
pub mod Methods
