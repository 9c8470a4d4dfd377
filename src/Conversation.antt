-- ===== src/Conversation.antt =====
-- backend/app/services/conversation.py: the thread of an incident.
pub mod Thread
pub mod Retained
mod Tests
