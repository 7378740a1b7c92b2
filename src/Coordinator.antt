-- ===== src/Coordinator.antt =====
-- The journal of src/civic-case-coordinator.ts: its chain of events and the frame of `handle`.
pub mod Canonical
pub mod Journal
pub mod Commit
pub mod Headers
pub mod Evidence
pub mod Receipts
pub mod Growth
pub mod Reached
pub mod Retry
pub mod Departments
mod Tests
