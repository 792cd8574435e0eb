-- ===== src/Matcher/Requests.antt =====
-- libs/matcher: what the requests to the matching engine guarantee.
pub mod Placing
pub mod Soundness
pub mod Reports
pub mod Conditions
pub mod Served
pub mod Priority
pub mod Rankings
pub mod Arrivals
pub mod Cancels
pub mod Makers
use mmperp.Prelude.{ℕ, ◌≡◌, some}
use mmperp.Matcher.Types.{MarketShard}
use mmperp.Matcher.Engine.{Engine}
use mmperp.Matcher.Invariant.{IsConsistent}
use mmperp.Matcher.Invariant.Uncrossed.{IsUncrossed}

-- The books and the map of orders agree, and the books do not cross.
pub record IsSound (s : MarketShard) : Type 0 where
  pub consistent : IsConsistent s
  pub uncrossed : IsUncrossed s

-- Every market of the engine is sound.
abbrev pub IsSoundEngine : Engine → Type 0
IsSoundEngine e = (m : ℕ) (s : MarketShard) → e m ≡ some s → IsSound s
