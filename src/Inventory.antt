-- ===== src/Inventory.antt =====
-- app/services/inventory: the product catalogue with its moderation workflow, and the reservations
-- that hold stock for a buyer.
pub mod Schemas
pub mod Service
pub mod Admin
pub mod Reserve
pub mod Internal
pub mod Moderation
