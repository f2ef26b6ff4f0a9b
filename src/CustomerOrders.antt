-- ===== src/CustomerOrders.antt =====
-- src/modules/customer-orders
pub mod Allocation
mod Examples
