-- ===== src/Orders.antt =====
-- modules/orders and modules/order-cancellation: the status of an order.
pub mod Status
pub mod StatusSync
pub mod AmendmentGate
pub mod CancellationPolicy
mod Tests
