-- ===== src/Transfers/Phases.antt =====
-- The phases of a dispatch and of a receipt in src/modules/transfers/service.ts, and what may happen
-- to them.
pub mod Prepares
pub mod Finishes
pub mod Compensation
pub mod Interrupted
pub mod Dispatched
pub mod Outcomes
pub mod Balances
