-- ===== src/Pipeline.antt =====
-- backend/app/services/pipeline.py: the conductor, which composes the other services.
pub mod Desk
pub mod Stages
pub mod Report
pub mod Perform
pub mod Conduct
pub mod Steps
pub mod Gate
pub mod Grants
pub mod Outcomes
pub mod Reports
pub mod Tests
