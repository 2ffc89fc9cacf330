-- ===== src/Storage.antt =====
-- Storage behind retries, reads in chunks and URLs: crates/roboflow-storage/src, and the retries of
-- crates/roboflow-core/src/retry.rs.
mod Tests
pub mod Error
pub mod Retry
pub mod Slices
pub mod Streaming
pub mod Url
pub mod Multipart
pub mod Cache
