-- ===== src/Snapshot.antt =====
-- libs/snapshot: the snapshot file, its compaction, and the store.
pub mod Record
pub mod Store
mod Files
pub mod Compaction
mod Tests
