-- ===== src/Risk/Types.antt =====
-- libs/risk/include/tradecore/risk/risk_engine.hpp: the state of the risk engine, and its requests.
use mmperp.Prelude.{ℕ, [], Bool, Store, Assoc}
use mmperp.Prelude.Int.{ℤ, pos}
use mmperp.Common.Types.{Side}

pub data Decision : Type 0 where
  accepted rejected_insufficient_margin rejected_reduce_only rejected_unknown_market : Decision

pub record RiskResult : Type 0 where
  pub decision : Decision
  pub reject_code : ℕ
  pub equity : ℤ
  pub initial_margin_required : ℤ
  pub maintenance_margin_required : ℤ

pub record MarketRiskConfig : Type 0 where
  pub contract_size : ℤ
  pub initial_margin_basis_points : ℤ
  pub maintenance_margin_basis_points : ℤ

pub record OrderIntent : Type 0 where
  pub account : ℕ
  pub market : ℕ
  pub side : Side
  pub quantity : ℤ
  pub limit_price : ℤ
  pub reduce_only : Bool

pub record FillContext : Type 0 where
  pub account : ℕ
  pub market : ℕ
  pub side : Side
  pub quantity : ℤ
  pub price : ℤ

pub record MarginSummary : Type 0 where
  pub equity : ℤ
  pub initial_margin : ℤ
  pub maintenance_margin : ℤ

pub record PositionState : Type 0 where
  pub quantity : ℤ
  pub entry_price : ℤ

abbrev pub flat : PositionState
flat = record { quantity = pos 0; entry_price = pos 0 }

-- The positions are iterated over.
pub record AccountState : Type 0 where
  pub collateral : ℤ
  pub realized_pnl : ℤ
  pub positions : Assoc PositionState

abbrev pub new_account : AccountState
new_account = record { collateral = pos 0; realized_pnl = pos 0; positions = [] }

abbrev pub default_config : MarketRiskConfig
default_config = record {
  contract_size = pos 1;
  initial_margin_basis_points = pos 0;
  maintenance_margin_basis_points = pos 0;
}

pub record MarketState : Type 0 where
  pub config : MarketRiskConfig
  pub mark_price : ℤ

abbrev pub new_market : MarketState
new_market = record { config = default_config; mark_price = pos 0 }

pub record RiskEngine : Type 0 where
  pub accounts : Assoc AccountState
  pub markets : Store MarketState
