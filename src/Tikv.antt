-- ===== src/Tikv.antt =====
-- The TiKV layer: crates/roboflow-distributed/src/tikv.
mod Tests
pub mod Error
pub mod Checkpoint
pub mod Circuit
pub mod Store
pub mod Key
pub mod World
pub mod Heartbeat
pub mod Cas
pub mod Lock
pub mod Client
