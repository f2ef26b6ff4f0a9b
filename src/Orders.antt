-- ===== src/Orders.antt =====
-- src/modules/orders
pub mod Types
pub mod Deduction
pub mod Quantities
pub mod Distinct
pub mod Lifecycle
pub mod Taken
pub mod Cancellation
pub mod Races
mod Examples
