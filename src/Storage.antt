-- ===== src/Storage.antt =====
-- src/storage: chunks of files, differences between versions of a file, version histories and the
-- collection of blocks that no version needs.
pub mod Chunk
pub mod Calendar
pub mod Diff
pub mod Version
pub mod Metadata
pub mod Gc
