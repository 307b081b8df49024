-- ===== src/Order.antt =====
-- packages/modules/order: the prices of an order.
pub mod Pricing
pub mod Totals
pub mod Tests
