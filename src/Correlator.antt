-- ===== src/Correlator.antt =====
-- backend/app/services/correlator.py: from alerts to incidents.
pub mod Alert
pub mod Signals
pub mod Group
pub mod Duplicates
pub mod Coverage
pub mod Partition
pub mod Members
pub mod Account
mod Tests
