-- ===== src/Storage.antt =====
-- storage/: the segmented raft log on disk.
pub mod Env
pub mod Bytes
pub mod MmapFile
pub mod IndexFile
pub mod Segment
pub mod Disk
pub mod Reader
mod Tests
