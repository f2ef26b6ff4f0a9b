-- ===== src/Stock.antt =====
-- src/modules/stock
pub mod Decimal
pub mod Types
pub mod Canonical
pub mod Route
pub mod Locks
pub mod Guards
pub mod Ledger
pub mod Posting
pub mod Retry
mod Sample
mod Examples
