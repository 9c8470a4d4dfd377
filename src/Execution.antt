-- ===== src/Execution.antt =====
-- backend/app/services/sandbox.py, verifier.py and rollback.py: what an action does to the mock
-- cluster, what is observed of it, and how it is taken back.
pub mod Numbers
pub mod Sandbox
pub mod Verifier
pub mod Rollback
pub mod Restore
pub mod Verdicts
pub mod Tests
