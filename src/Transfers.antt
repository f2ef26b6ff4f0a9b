-- ===== src/Transfers.antt =====
-- src/modules/transfers: the transfer orders between the headquarters, production and the outlets.
pub mod Types
pub mod Guards
pub mod Lines
pub mod Updates
pub mod Lifecycle
pub mod Reads
pub mod Fefo
pub mod Posted
pub mod Dispatch
pub mod Receipt
pub mod Receive
pub mod Phases
pub mod History
pub mod Spec
pub mod Examples
