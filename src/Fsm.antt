-- ===== src/Fsm.antt =====
-- backend/app/services/fsm.py: the life of one incident.
pub mod Run
pub mod Advance
pub mod Edge
pub mod Bounds
pub mod Once
pub mod Log
pub mod Reach
pub mod Sweep
pub mod Trail
pub mod Permits
pub mod OnceLaws
mod Tests
