-- ===== src/Batch.antt =====
-- Batch jobs: crates/roboflow-distributed/src/batch.
mod Examples
mod Tests
pub mod WorkUnit
pub mod Status
pub mod Spec
pub mod Controller
pub mod Operations
