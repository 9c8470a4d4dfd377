-- ===== src/Queue.antt =====
-- backend/app/routers/approvals.py: the queue of approval requests, and the permits that it mints.
pub mod Entry
pub mod Store
pub mod Permit
pub mod Decide
pub mod Approve
pub mod Status
pub mod Moves
pub mod Walk
pub mod Paths
pub mod Calls
pub mod Rounds
pub mod History
pub mod Returns
pub mod Grants
pub mod Mint
pub mod Quiet
pub mod Spend
pub mod Resume
pub mod Silent
mod Tests
