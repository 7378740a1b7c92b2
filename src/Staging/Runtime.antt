-- ===== src/Staging/Runtime.antt =====
-- src/staging-case-runtime-lifecycle.ts: one HTTP server from its bind to its drained end.
pub mod State
pub mod Start
pub mod Close
pub mod Step
pub mod Invariant
pub mod Turns
pub mod Closing
pub mod Phases
