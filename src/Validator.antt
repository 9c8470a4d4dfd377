-- ===== src/Validator.antt =====
-- backend/app/services/validator.py: the structural gate that an action passes before policy.
pub mod Patterns
pub mod Scan
pub mod Search
pub mod Rules
pub mod Accept
mod Tests
