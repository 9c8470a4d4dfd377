-- ===== src/Budgets.antt =====
-- backend/app/services/budgets.py: the ledger of an incident and its gate.
pub mod Ledger
pub mod Gate
