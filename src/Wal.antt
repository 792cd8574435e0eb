-- ===== src/Wal.antt =====
-- libs/wal: the write-ahead log.
pub mod Record
pub mod Reader
pub mod Writer
pub mod Logs
pub mod Appends
pub mod Seeks
mod Tests
