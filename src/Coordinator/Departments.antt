-- ===== src/Coordinator/Departments.antt =====
-- Department packages in src/civic-case-coordinator.ts: the branches of `replayJournal` and of
-- `handle` for assignments, drafts, reviews, corrections and retractions. Payloads are as the
-- normalizers of their forms leave them.
pub mod State
pub mod Replay
pub mod Commands
pub mod Holding
pub mod Accepting
pub mod Accepted
pub mod Separation
mod Tests
