-- ===== src/Risk.antt =====
-- libs/risk: margin, positions and liquidation.
pub mod Types
pub mod Engine
pub mod Summary
pub mod Liquidation
pub mod Positions
mod Verdicts
mod Credits
mod Cures
mod Margins
mod Equity
mod Checks
mod Tests
