-- ===== src/Order.antt =====
-- The orders of one tenant: order/order.service.ts, order/order.controller.ts and the consumers of the
-- order queues.
pub mod Status
pub mod Cart
pub mod Lifecycle
pub mod Checkout
pub mod Fulfilment
pub mod Payment
pub mod Machine
pub mod Adding
pub mod Listing
pub mod Controller
pub mod Placing
