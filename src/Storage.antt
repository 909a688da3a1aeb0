-- ===== src/Storage.antt =====
-- internal/storage: the append-only segment files and their indexes.
pub mod Checksum
pub mod Record
pub mod File
pub mod Scan
pub mod Segment
pub mod BlobStore
pub mod SegmentIndex
mod Tests
