-- ===== src/Delivery.antt =====
-- backend/app/services/token_delivery.py: approval tokens that wait to be collected.
pub mod Hold
pub mod Single
pub mod Capacity
mod Tests
