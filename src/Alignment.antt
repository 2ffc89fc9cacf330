-- ===== src/Alignment.antt =====
-- Alignment of messages to frames: crates/roboflow-dataset/src/formats/alignment.
mod Tests
pub mod Config
pub mod Criteria
pub mod Buffer
pub mod Emission
pub mod Reference
pub mod Order
pub mod Steps
pub mod Contents
pub mod Conserved
pub mod Memory
pub mod Nearest
