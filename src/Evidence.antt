-- ===== src/Evidence.antt =====
-- backend/app/services/evidence.py: freshness, trust and the coverage of claims.
pub mod Record
pub mod Gate
pub mod Coverage
mod Tests
