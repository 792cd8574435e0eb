-- ===== src/Common.antt =====
-- libs/common: the types that every engine shares, and the ring between threads.
pub mod Types
pub mod Ring
pub mod Bytes
