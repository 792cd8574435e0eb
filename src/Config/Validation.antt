-- ===== src/Config/Validation.antt =====
-- libs/config/src/config_loader.cpp: the checks of a configuration.
use mmperp.Prelude.{ℕ, suc, ◌^◌, Bool, List, [], ◌∷◌, ◌++◌, ltb, ◌==◌, if◌then◌else◌, is_nil}
use mmperp.Prelude.Int.{pos, ltb_ℤ, leb_ℤ}
use mmperp.Prelude.Texts.{codes}
use mmperp.Api.{to_decimal}
use mmperp.Config.{EngineConfig, MarketConfig}

pub record ValidationError : Type 0 where
  pub field : List ℕ
  pub message : List ℕ

-- `if (broken) errors.push_back({field, message});`
pub record Check : Type 0 where
  pub broken : Bool
  pub error : ValidationError

unfoldable pub report : List Check → List ValidationError
report [] = []
report (c ∷ checks) = if c.broken then c.error ∷ report checks else report checks

abbrev pub check : Bool → List ℕ → List ℕ → Check
check broken field message = record {
  broken = broken;
  error = record { field = field; message = message };
}

abbrev pub market_checks : List ℕ → MarketConfig → List Check
market_checks prefix m =
    check (m.id == 0) (prefix ++ codes ".id") (codes "market id must be greater than 0")
    ∷ check (leb_ℤ m.risk.contract_size (pos 0)) (prefix ++ codes ".risk.contract_size")
        (codes "must be positive")
    ∷ check (leb_ℤ m.risk.initial_margin_basis_points (pos 0))
        (prefix ++ codes ".risk.initial_margin_bp") (codes "must be positive")
    ∷ check (leb_ℤ m.risk.maintenance_margin_basis_points (pos 0))
        (prefix ++ codes ".risk.maintenance_margin_bp") (codes "must be positive")
    ∷ check (ltb_ℤ m.risk.initial_margin_basis_points m.risk.maintenance_margin_basis_points)
        (prefix ++ codes ".risk") (codes "maintenance_margin_bp must be <= initial_margin_bp")
    ∷ check (leb_ℤ m.funding.max_rate_basis_points (pos 0)) (prefix ++ codes ".funding.max_rate_bp")
        (codes "must be positive")
    ∷ []

unfoldable pub markets_checks : ℕ → List MarketConfig → List Check
unfolding to_decimal
markets_checks i [] = []
markets_checks i (m ∷ markets) =
    market_checks (codes "markets[" ++ (to_decimal i ++ codes "]")) m
    ++ markets_checks (suc i) markets

abbrev pub engine_checks : EngineConfig → List Check
engine_checks c =
    check (is_nil c.transport.endpoint) (codes "transport.endpoint")
      (codes "endpoint cannot be empty")
    ∷ check (c.ingress.max_new_orders_per_second == 0) (codes "ingress.max_new_orders_per_second")
        (codes "must be greater than 0")
    ∷ check (ltb c.matcher.arena_bytes (2 ^ 16)) (codes "matcher.arena_bytes")
        (codes "must be at least 64KB")
    ∷ check (is_nil c.persistence.wal_path) (codes "persistence.wal_path")
        (codes "wal_path cannot be empty")
    ∷ check (is_nil c.persistence.snapshot_dir) (codes "persistence.snapshot_dir")
        (codes "snapshot_dir cannot be empty")
    ∷ []

unfoldable pub validate : EngineConfig → List ValidationError
unfolding report markets_checks
validate c = report (engine_checks c ++ markets_checks 0 c.markets)
