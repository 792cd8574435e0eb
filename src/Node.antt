-- ===== src/Node.antt =====
-- apps/tradecored/src/main.cpp: the program that the parts make up.
pub mod Fills
pub mod Orders
pub mod Loop
mod Durable
pub mod Positions
mod Signed
pub mod Tracked
pub mod Start
pub mod Drained
pub mod System
mod Tests
