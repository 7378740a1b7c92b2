-- ===== src/City.antt =====
-- src/city-control-plane.ts, `createCityControlPlane`: the control plane of one city, which checks
-- callers and requests, keeps ledgers of what it has passed on, and drives the kernel.
pub mod Types
pub mod Requests
pub mod Config
pub mod State
pub mod Operations
pub mod Publishing
pub mod Ingestion
pub mod Lemmas
pub mod Runs
pub mod Ledgers
pub mod Answers
pub mod Access
pub mod Repeats
pub mod Staffing
pub mod Samples
mod Tests
