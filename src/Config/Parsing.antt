-- ===== src/Config/Parsing.antt =====
-- libs/config/src/config_loader.cpp: the reading of a configuration.
use mmperp.Prelude.{
  ℕ, ◌-◌, ◌%◌, ◌^◌, Bool, true, false, Option, none, some, List, [], ◌∷◌, ◌++◌, ltb, if◌then◌else◌,
  is_nil, or_default,
}
use mmperp.Prelude.Int.{ℤ, pos, negsuc}
use mmperp.Prelude.Texts.{codes}
use mmperp.Common.Bytes.{to_word}
use mmperp.Config.{
  TransportConfig, IngressConfig, MarketRiskConfig, MarketFundingConfig, MarketConfig,
  MatcherConfig, PersistenceConfig, TelemetryConfig, EngineConfig, default_transport,
  default_ingress, default_market_config, default_matcher, default_persistence, default_telemetry,
  default_engine, Toml,
}
use mmperp.Config.Validation.{ValidationError, validate}

-- `static_cast` to unsigned 32 bits, and to signed ones.
unfoldable pub to_u32 : ℤ → ℕ
to_u32 z = to_word z % 2 ^ 32

unfoldable pub to_i32 : ℤ → ℤ
unfolding to_u32
to_i32 z = let n = to_u32 z in if ltb n (2 ^ 31) then pos n else negsuc (2 ^ 32 - 1 - n)

pub record LoadResult : Type 0 where
  pub success : Bool
  pub config : EngineConfig
  pub errors : List ValidationError
  pub raw_error : List ℕ

-- What the library's parser returns.
pub data ParseResult (Table : Type 0) : Type 0 where
  parsed : Table → ParseResult Table
  parse_error : List ℕ → ParseResult Table

abbrev pub failed_load : List ℕ → LoadResult
failed_load message = record {
  success = false;
  config = default_engine;
  errors = [];
  raw_error = message;
}

module _ {Table : Type 0} (toml : Toml Table) where
  unfoldable pub get_int_or : Table → List ℕ → ℤ → ℤ
  get_int_or table key default = or_default default (toml.int_value table key)

  unfoldable pub get_str_or : Table → List ℕ → List ℕ → List ℕ
  get_str_or table key default = or_default default (toml.text_value table key)

  -- A value of an unsigned type of 64 bits, whose default is given as a signed one.
  abbrev pub get_size_or : Table → List ℕ → ℕ → ℕ
  get_size_or table key default = to_word (get_int_or table key (pos default))

  abbrev pub get_u32_or : Table → List ℕ → ℕ → ℕ
  get_u32_or table key default = to_u32 (get_int_or table key (pos default))

  abbrev pub get_i32_or : Table → List ℕ → ℤ → ℤ
  get_i32_or table key default = to_i32 (get_int_or table key default)

  abbrev pub parse_transport : Option Table → TransportConfig
  parse_transport none = default_transport
  parse_transport (some t) = record {
    endpoint = get_str_or t (codes "endpoint") default_transport.endpoint;
  }

  abbrev pub parse_ingress : Option Table → IngressConfig
  parse_ingress none = default_ingress
  parse_ingress (some t) =
      let d = default_ingress in
      record {
        new_order_queue_depth =
            get_size_or t (codes "new_order_queue_depth") d.new_order_queue_depth;
        cancel_queue_depth = get_size_or t (codes "cancel_queue_depth") d.cancel_queue_depth;
        replace_queue_depth = get_size_or t (codes "replace_queue_depth") d.replace_queue_depth;
        max_new_orders_per_second =
            get_u32_or t (codes "max_new_orders_per_second") d.max_new_orders_per_second;
        max_cancels_per_second =
            get_u32_or t (codes "max_cancels_per_second") d.max_cancels_per_second;
      }

  abbrev pub parse_matcher : Option Table → MatcherConfig
  parse_matcher none = default_matcher
  parse_matcher (some t) = record {
    arena_bytes = get_size_or t (codes "arena_bytes") default_matcher.arena_bytes;
  }

  abbrev pub parse_persistence : Option Table → PersistenceConfig
  parse_persistence none = default_persistence
  parse_persistence (some t) =
      let d = default_persistence in
      record {
        wal_path = get_str_or t (codes "wal_path") d.wal_path;
        snapshot_dir = get_str_or t (codes "snapshot_dir") d.snapshot_dir;
        wal_flush_threshold = get_size_or t (codes "wal_flush_threshold") d.wal_flush_threshold;
      }

  abbrev pub parse_telemetry : Option Table → TelemetryConfig
  parse_telemetry none = default_telemetry
  parse_telemetry (some t) =
      let d = default_telemetry in
      record {
        enabled = or_default d.enabled (toml.bool_value t (codes "enabled"));
        buffer_size = get_size_or t (codes "buffer_size") d.buffer_size;
      }

  abbrev pub parse_risk : Option Table → MarketRiskConfig
  parse_risk none = default_market_config.risk
  parse_risk (some t) =
      let d = default_market_config.risk in
      record {
        contract_size = get_int_or t (codes "contract_size") d.contract_size;
        initial_margin_basis_points =
            get_i32_or t (codes "initial_margin_bp") d.initial_margin_basis_points;
        maintenance_margin_basis_points =
            get_i32_or t (codes "maintenance_margin_bp") d.maintenance_margin_basis_points;
        initial_mark_price = get_int_or t (codes "initial_mark_price") d.initial_mark_price;
      }

  abbrev pub parse_funding : Option Table → MarketFundingConfig
  parse_funding none = default_market_config.funding
  parse_funding (some t) =
      let d = default_market_config.funding in
      record {
        clamp_basis_points = get_i32_or t (codes "clamp_bp") d.clamp_basis_points;
        max_rate_basis_points = get_int_or t (codes "max_rate_bp") d.max_rate_basis_points;
      }

  unfoldable pub parse_market : Table → MarketConfig
  unfolding get_int_or get_str_or to_i32
  parse_market t =
      let d = default_market_config in
      record {
        id = get_u32_or t (codes "id") d.id;
        symbol = get_str_or t (codes "symbol") d.symbol;
        risk = parse_risk (toml.as_table t (codes "risk"));
        funding = parse_funding (toml.as_table t (codes "funding"));
      }

  -- Elements that are no tables are passed over.
  unfoldable pub read_markets : List (Option Table) → List MarketConfig
  unfolding parse_market
  read_markets [] = []
  read_markets (none ∷ elements) = read_markets elements
  read_markets (some t ∷ elements) = parse_market t ∷ read_markets elements

  abbrev pub or_default_market : List MarketConfig → List MarketConfig
  or_default_market [] = default_market_config ∷ []
  or_default_market (m ∷ markets) = m ∷ markets

  unfoldable pub parse_markets : Table → List MarketConfig
  unfolding read_markets
  parse_markets root =
      or_default_market (read_markets (or_default [] (toml.as_array root (codes "markets"))))

  unfoldable pub parse_config : Table → EngineConfig
  unfolding parse_markets get_int_or get_str_or to_u32
  parse_config root =
      let section : List ℕ → Option Table = λ name. toml.as_table root name in
      record {
        transport = parse_transport (section (codes "transport"));
        ingress = parse_ingress (section (codes "ingress"));
        matcher = parse_matcher (section (codes "matcher"));
        persistence = parse_persistence (section (codes "persistence"));
        telemetry = parse_telemetry (section (codes "telemetry"));
        markets = parse_markets root;
      }

  unfoldable pub load_parsed : ParseResult Table → LoadResult
  unfolding parse_config validate
  load_parsed (parse_error message) = failed_load message
  load_parsed (parsed root) =
      let config = parse_config root in
      let errors = validate config in
      record { success = is_nil errors; config = config; errors = errors; raw_error = [] }

  -- The library's parser is an argument.
  unfoldable pub load_from_string : (List ℕ → ParseResult Table) → List ℕ → LoadResult
  unfolding load_parsed
  load_from_string parse content = load_parsed (parse content)

  -- And so is the file, which may be missing.
  unfoldable pub load : (List ℕ → ParseResult Table) → Bool → List ℕ → LoadResult
  unfolding load_parsed
  load parse_file false path = failed_load (codes "Config file not found: " ++ path)
  load parse_file true path = load_parsed (parse_file path)
