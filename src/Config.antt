-- ===== src/Config.antt =====
-- libs/config/src/config_loader.cpp and its header: the configuration, and what its fields are read
-- from. The parsed document is a type of the TOML library.
pub mod Defaults
pub mod Parsing
pub mod Validation
pub mod Verdicts
mod Tests
use mmperp.Prelude.{ℕ, ◌-◌, ◌/◌, ◌^◌, Bool, true, Option, List, []}
use mmperp.Prelude.Int.{ℤ, pos}
use mmperp.Prelude.Texts.{codes}

pub record TransportConfig : Type 0 where
  pub endpoint : List ℕ

pub record IngressConfig : Type 0 where
  pub new_order_queue_depth : ℕ
  pub cancel_queue_depth : ℕ
  pub replace_queue_depth : ℕ
  pub max_new_orders_per_second : ℕ
  pub max_cancels_per_second : ℕ

pub record MarketRiskConfig : Type 0 where
  pub contract_size : ℤ
  pub initial_margin_basis_points : ℤ
  pub maintenance_margin_basis_points : ℤ
  pub initial_mark_price : ℤ

pub record MarketFundingConfig : Type 0 where
  pub clamp_basis_points : ℤ
  pub max_rate_basis_points : ℤ

pub record MarketConfig : Type 0 where
  pub id : ℕ
  pub symbol : List ℕ
  pub risk : MarketRiskConfig
  pub funding : MarketFundingConfig

pub record MatcherConfig : Type 0 where
  pub arena_bytes : ℕ

pub record PersistenceConfig : Type 0 where
  pub wal_path : List ℕ
  pub snapshot_dir : List ℕ
  pub wal_flush_threshold : ℕ

pub record TelemetryConfig : Type 0 where
  pub enabled : Bool
  pub buffer_size : ℕ

pub record EngineConfig : Type 0 where
  pub transport : TransportConfig
  pub ingress : IngressConfig
  pub matcher : MatcherConfig
  pub persistence : PersistenceConfig
  pub telemetry : TelemetryConfig
  pub markets : List MarketConfig

abbrev pub default_transport : TransportConfig
default_transport = record { endpoint = codes "quic://127.0.0.1:9000" }

abbrev pub default_ingress : IngressConfig
default_ingress = record {
  new_order_queue_depth = 4096;
  cancel_queue_depth = 4096;
  replace_queue_depth = 4096;
  max_new_orders_per_second = 10000;
  max_cancels_per_second = 20000;
}

abbrev pub default_market_config : MarketConfig
default_market_config = record {
  id = 1;
  symbol = codes "BTC-PERP";
  risk = record {
    contract_size = pos 1;
    initial_margin_basis_points = pos 500;
    maintenance_margin_basis_points = pos 300;
    initial_mark_price = pos 1000;
  };
  funding = record { clamp_basis_points = pos 50; max_rate_basis_points = pos 100 };
}

abbrev pub default_matcher : MatcherConfig
default_matcher = record { arena_bytes = 2 ^ 20 }

abbrev pub default_persistence : PersistenceConfig
default_persistence = record {
  wal_path = codes "/var/lib/tradecore/events.wal";
  snapshot_dir = codes "/var/lib/tradecore/snapshots";
  wal_flush_threshold = 128;
}

abbrev pub default_telemetry : TelemetryConfig
default_telemetry = record { enabled = true; buffer_size = 1024 }

-- Before anything is read there are no markets.
abbrev pub default_engine : EngineConfig
default_engine = record {
  transport = default_transport;
  ingress = default_ingress;
  matcher = default_matcher;
  persistence = default_persistence;
  telemetry = default_telemetry;
  markets = [];
}

-- What the program asks the library of a table: an entry is `none` if it is missing or of another
-- type. An element of an array that is no table is `none` in the list.
pub record Toml (Table : Type 0) : Type 0 where
  pub as_table : Table → List ℕ → Option Table
  pub as_array : Table → List ℕ → Option (List (Option Table))
  pub int_value : Table → List ℕ → Option ℤ
  pub text_value : Table → List ℕ → Option (List ℕ)
  pub bool_value : Table → List ℕ → Option Bool
