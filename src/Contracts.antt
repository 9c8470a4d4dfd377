-- ===== src/Contracts.antt =====
-- backend/app/contracts: the shared vocabularies.
pub mod Enums
pub mod Identifier
pub mod Value
pub mod Vocabulary
