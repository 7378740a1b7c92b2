-- ===== src/Staging/Process.antt =====
-- src/staging-case-process-lifecycle.ts: the listeners of a process, started in order and stopped in
-- reverse.
pub mod State
pub mod Start
pub mod Close
pub mod Step
pub mod Children
pub mod Child
pub mod Invariant
pub mod Shapes
pub mod Undoing
pub mod Starting
pub mod Looping
pub mod Ending
pub mod Turns
pub mod Promises
pub mod Config
pub mod Distinct
