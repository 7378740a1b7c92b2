-- ===== src/Kernel.antt =====
-- civic-kernel.ts, the in-memory civic kernel, a child for each part of it.
pub mod Types
pub mod Errors
pub mod Actors
pub mod Config
pub mod Provenance
pub mod Shape
pub mod Participation
pub mod State
pub mod Discussions
pub mod Packages
pub mod Dispatch
pub mod Project
pub mod Samples
mod Tests
pub mod Authority
pub mod Roles
pub mod Changes
pub mod Invariant
pub mod Replay
pub mod Runs
pub mod Publication
pub mod Counts
pub mod Screen
pub mod Privacy
pub mod History
pub mod Registry
pub mod Reviews
