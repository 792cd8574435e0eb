-- ===== src/Node/Start.antt =====
-- apps/tradecored/src/main.cpp: from the command line to the event loop, and what follows it. What the
-- libraries, the operating system and the environment answer is an argument.
use mmperp.Prelude.{
  ℕ, ◌*◌, ◌%◌, ◌^◌, Bool, true, false, ◌&&◌, not, Option, none, some, List, [], ◌∷◌, vacant,
  if◌then◌else◌, is_nil,
}
use mmperp.Prelude.Int.{pos}
use mmperp.Prelude.Texts.{codes}
use mmperp.Auth.{Authenticator, register_account, verify_frame}
use mmperp.Ingress
use mmperp.Ingress.{FrameHeader, Pipeline}
use mmperp.Transport.Udp.{SocketCalls}
use mmperp.Transport.Quic.{QuicTransport, new_quic_transport, start_quic, stop_quic}
use mmperp.Matcher.Engine.{Engine, add_market}
use mmperp.Risk.Types.{RiskEngine}
use mmperp.Risk.Engine.{set_mark_price, configure_market as configure_risk}
use mmperp.Funding.{FundingEngine, configure_market as configure_funding}
use mmperp.Wal.Reader.{ReadError}
use mmperp.Wal.Writer.{Writer, Opened, opened, refused, open_writer, sync}
use mmperp.Snapshot.Store.{StoreOptions}
use mmperp.Telemetry.{TelemetrySink, new_sink, push_sample}
use mmperp.Api.{ApiRouter, new_router, register_endpoint, set_node_state_provider}
use mmperp.Config.{EngineConfig, MarketConfig, Toml}
use mmperp.Config.Defaults.{generate_default}
use mmperp.Config.Parsing.{LoadResult, ParseResult, load, load_from_string}
use mmperp.Node.Fills.{Node}

-- The configuration file: the argument, or the first of three places at which there is one, or the
-- empty path. The third place is the path that joins the home directory with
-- `.config/tradecore/tradecore.toml`.
unfoldable pub first_existing : (List ℕ → Bool) → List (List ℕ) → List ℕ
first_existing exists [] = []
first_existing exists (path ∷ paths) =
    if not (is_nil path) && exists path then path else first_existing exists paths

unfoldable pub find_config_path : (List ℕ → Bool) → List ℕ → Option (List ℕ) → List ℕ
unfolding first_existing
find_config_path exists home_path (some argument) = argument
find_config_path exists home_path none =
    first_existing exists
      (codes "./tradecore.toml" ∷ codes "/etc/tradecore/tradecore.toml" ∷ home_path ∷ [])

unfoldable pub load_config :
    {Table : Type 0}
    → Toml Table
    → (List ℕ → ParseResult Table)
    → (List ℕ → ParseResult Table)
    → (List ℕ → Bool)
    → List ℕ
    → LoadResult
unfolding load load_from_string
load_config toml parse parse_file exists [] = load_from_string toml parse generate_default
load_config toml parse parse_file exists (c ∷ path) =
    load toml parse_file (exists (c ∷ path)) (c ∷ path)

-- The key is the public one of the pair that is generated; `chain_id` is the variable
-- `MONMOUTH_CHAIN_ID`, `none` if it is not set, and its number, if it is one.
pub record Environment : Type 0 where
  pub test_pubkey : List ℕ
  pub valid : List ℕ → List ℕ → List ℕ → Bool
  pub header_bytes : FrameHeader → List ℕ
  pub sockets : SocketCalls
  pub log : List ℕ
  pub snapshots : Option (List ℕ)
  pub chain_id : Option (Option ℕ)

abbrev pub authenticator : Environment → Authenticator
authenticator env = register_account vacant 1 env.test_pubkey

unfoldable pub auth_verifier : Environment → FrameHeader → List ℕ → Bool
unfolding verify_frame register_account
auth_verifier env header payload =
    verify_frame env.valid (authenticator env) (env.header_bytes header) payload header.account

-- The limit on replaces keeps its default.
abbrev pub ingress_config : EngineConfig → Ingress.IngressConfig
ingress_config cfg = record {
  new_order_queue_depth = cfg.ingress.new_order_queue_depth;
  cancel_queue_depth = cfg.ingress.cancel_queue_depth;
  replace_queue_depth = cfg.ingress.replace_queue_depth;
  max_new_orders_per_second = cfg.ingress.max_new_orders_per_second;
  max_cancels_per_second = cfg.ingress.max_cancels_per_second;
  max_replaces_per_second = 20000;
}

pub record Engines : Type 0 where
  pub matcher : Engine
  pub risk : RiskEngine
  pub funding : FundingEngine

-- A market's id has 32 bits in the configuration, and 16 in the engines.
abbrev pub market_id : MarketConfig → ℕ
market_id m = m.id % 2 ^ 16

unfoldable pub configure_one : Engines → MarketConfig → Engines
unfolding add_market configure_risk set_mark_price configure_funding
configure_one e m = record {
  matcher = add_market (market_id m) e.matcher;
  risk =
      set_mark_price
        (configure_risk e.risk (market_id m) record {
          contract_size = m.risk.contract_size;
          initial_margin_basis_points = m.risk.initial_margin_basis_points;
          maintenance_margin_basis_points = m.risk.maintenance_margin_basis_points;
        })
        (market_id m) m.risk.initial_mark_price;
  funding = configure_funding e.funding (market_id m) record {
    clamp_basis_points = m.funding.clamp_basis_points;
    max_rate_basis_points = m.funding.max_rate_basis_points;
  };
}

unfoldable pub configure_all : Engines → List MarketConfig → Engines
unfolding configure_one
configure_all e [] = e
configure_all e (m ∷ markets) = configure_all (configure_one e m) markets

abbrev pub no_engines : Engines
no_engines = record {
  matcher = vacant;
  risk = record { accounts = []; markets = vacant };
  funding = vacant;
}

abbrev pub default_market_of : List MarketConfig → ℕ
default_market_of [] = 1
default_market_of (m ∷ markets) = market_id m

unfoldable pub boot_telemetry : Bool → TelemetrySink
unfolding push_sample
boot_telemetry true = push_sample new_sink record { id = 1; value = pos 0 }
boot_telemetry false = new_sink

-- What the callbacks return at the start.
unfoldable pub boot_api : ℕ → ApiRouter
unfolding new_router register_endpoint set_node_state_provider
boot_api chain_id =
    let r = new_router 4096 4096 in
    let r = register_endpoint r (codes "/orders") in
    let r = register_endpoint r (codes "/express-feed") in
    let r = register_endpoint r (codes "/trade-metadata") in
    let r = register_endpoint r (codes "/state-root") in
    set_node_state_provider r record {
      chain_id = some chain_id;
      block_number = some 0;
      peer_connections = some 0;
      healthy = some true;
    }

abbrev pub chain_id_of : Option (Option ℕ) → Option ℕ
chain_id_of none = some 1
chain_id_of (some value) = value

pub record Program : Type 0 where
  pub node : Node
  pub funding : FundingEngine
  pub telemetry : TelemetrySink
  pub transport : QuicTransport

-- Why `main` ends before its loop: it returns 1, or an exception ends it.
pub data Started : Type 0 where
  started : Program → Started
  bad_config bad_queue_depth bad_port no_transport bad_chain_id : Started
  unreadable_log : ReadError → Started

-- The limits that `Store` has by default.
abbrev pub store_options : StoreOptions
store_options = record { max_records = 1024; max_file_bytes = 64 * 2 ^ 20 }

abbrev pub boot_node : Environment → EngineConfig → Pipeline → Engines → Writer → ℕ → Node
boot_node env cfg ingress engines wal chain_id = record {
  ingress = ingress;
  wal = wal;
  api = boot_api chain_id;
  risk = engines.risk;
  matcher = engines.matcher;
  resting_orders = vacant;
  default_market = default_market_of cfg.markets;
  chain_id = chain_id;
  block_number = 0;
  last_snapshot_block = 0;
  snapshot = record { prepared = true; file = env.snapshots; options = store_options };
}

unfoldable pub boot_chain :
    Environment → EngineConfig → Pipeline → QuicTransport → Writer → Option ℕ → Started
unfolding configure_all boot_telemetry boot_api
boot_chain env cfg ingress transport wal none = bad_chain_id
boot_chain env cfg ingress transport wal (some chain_id) =
    let engines = configure_all no_engines cfg.markets in
    started record {
      node = boot_node env cfg ingress engines wal chain_id;
      funding = engines.funding;
      telemetry = boot_telemetry cfg.telemetry.enabled;
      transport = transport;
    }

unfoldable pub boot_log : Environment → EngineConfig → Pipeline → QuicTransport → Opened → Started
unfolding boot_chain
boot_log env cfg ingress transport (refused e) = unreadable_log e
boot_log env cfg ingress transport (opened wal) =
    boot_chain env cfg ingress transport wal (chain_id_of env.chain_id)

unfoldable pub boot_transport :
    Environment → EngineConfig → Pipeline → Option (Bool × QuicTransport) → Started
unfolding boot_log open_writer
boot_transport env cfg ingress none = bad_port
boot_transport env cfg ingress (some (false, transport)) = no_transport
boot_transport env cfg ingress (some (true, transport)) =
    boot_log env cfg ingress transport (open_writer env.log cfg.persistence.wal_flush_threshold)

unfoldable pub boot_ingress : Environment → EngineConfig → Option Pipeline → Started
unfolding boot_transport start_quic
boot_ingress env cfg none = bad_queue_depth
boot_ingress env cfg (some ingress) =
    boot_transport env cfg ingress
      (start_quic env.sockets new_quic_transport cfg.transport.endpoint)

unfoldable pub boot : Environment → LoadResult → Started
unfolding boot_ingress Ingress.configure auth_verifier
boot env loaded =
    if not loaded.success
    then bad_config
    else boot_ingress env loaded.config
        (Ingress.configure (ingress_config loaded.config) (some (auth_verifier env)))

-- After the loop.
unfoldable pub shut_down : Program → Program
unfolding stop_quic sync
shut_down p = record p {
  transport = stop_quic p.transport;
  node = record p.node { wal = sync p.node.wal };
}
