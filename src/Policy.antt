-- ===== src/Policy.antt =====
-- backend/app/services/policy.py: the authorization boundary.
pub mod Bundle
pub mod Engine
pub mod Evaluate
pub mod Decisions
pub mod Tests
