-- ===== src/Merge.antt =====
-- Merging what the workers of a batch have staged, and completing the batch:
-- crates/roboflow-distributed/src/merge and crates/roboflow-distributed/src/finalizer.
pub mod State
pub mod Semaphore
pub mod Coordinator
pub mod Permits
pub mod Stores
pub mod Claims
pub mod Outcomes
pub mod Results
pub mod Finalizer
pub mod Tests
