-- ===== src/Matcher.antt =====
-- libs/matcher: the matching engine.
pub mod Types
pub mod Level
pub mod Matching
pub mod Books
pub mod Engine
pub mod Invariant
pub mod Requests
mod Tests
