-- ===== src/Staging.antt =====
-- The staging processes: src/staging-case-runtime-lifecycle.ts, what it is built on, and
-- src/staging-case-process-lifecycle.ts, which is built on it.
pub mod Listeners
pub mod Raw
pub mod Runtime
pub mod Config
pub mod Exposure
pub mod Process
mod Tests
