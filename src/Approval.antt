-- ===== src/Approval.antt =====
-- backend/app/services/approval.py: approval tokens and the store of consumed nonces.
pub mod Nonces
pub mod Single
pub mod Restart
pub mod Evict
pub mod Token
pub mod Grant
mod Tests
