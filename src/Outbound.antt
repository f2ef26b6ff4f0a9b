-- ===== src/Outbound.antt =====
-- The commands to the aggregators of src/modules/outbound: the policies, the queue's enqueue, the
-- worker that sends, the control mode, and the disputes.
pub mod Types
pub mod Policies
pub mod Worker
pub mod Payloads
pub mod Enqueue
pub mod Disputes
pub mod History
pub mod Reads
mod Examples
