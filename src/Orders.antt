-- ===== src/Orders.antt =====
-- app/services/orders: an order is made from a reservation, then paid or cancelled, and cancelled
-- by the system when its reservation expires.
pub mod Changes
pub mod Service
pub mod Settlement
