-- ===== src/Audit.antt =====
-- backend/app/services/audit.py and the contract of backend/app/contracts/audit.py.
pub mod Event
pub mod Chain
pub mod Verify
pub mod Integrity
pub mod Emit
pub mod Tamper
pub mod Reload
pub mod FsmRecords
mod Tests
