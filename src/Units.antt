-- ===== src/Units.antt =====
-- src/modules/units
pub mod Catalog
pub mod Service
mod Examples
