-- ===== src/EventBus.antt =====
-- backend/app/services/eventbus.py: the fan-out of audit events to live readers.
pub mod Queue
pub mod Bus
pub mod Backlog
pub mod Fanout
pub mod Buckets
mod Tests
