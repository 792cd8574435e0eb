-- ===== src/Transport.antt =====
-- libs/ingest/src/transport.cpp: the frames on the wire, and the transport that receives them.
pub mod Wire
pub mod Endpoint
pub mod Udp
pub mod Quic
mod Frames
mod Counters
mod Tests
