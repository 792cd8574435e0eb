-- ===== src/Config/Defaults.antt =====
-- libs/config/src/config_loader.cpp: the text of the default configuration.
use Prim.Native.String.{String}
use mmperp.Prelude.{ℕ, List, [], ◌∷◌, ◌++◌}
use mmperp.Prelude.Texts.{codes}

abbrev pub default_lines : List String
default_lines =
    "# TradeCore Engine Configuration" ∷ "# Generated default configuration" ∷ "" ∷ "[transport]"
    ∷ "endpoint = \"quic://127.0.0.1:9000\"" ∷ "" ∷ "[ingress]" ∷ "new_order_queue_depth = 4096"
    ∷ "cancel_queue_depth = 4096" ∷ "replace_queue_depth = 4096"
    ∷ "max_new_orders_per_second = 100000" ∷ "max_cancels_per_second = 200000" ∷ "" ∷ "[matcher]"
    ∷ "arena_bytes = 1048576  # 1MB" ∷ "" ∷ "[persistence]"
    ∷ "wal_path = \"/var/lib/tradecore/events.wal\""
    ∷ "snapshot_dir = \"/var/lib/tradecore/snapshots\"" ∷ "wal_flush_threshold = 128" ∷ ""
    ∷ "[telemetry]" ∷ "enabled = true" ∷ "buffer_size = 1024" ∷ "" ∷ "[[markets]]" ∷ "id = 1"
    ∷ "symbol = \"BTC-PERP\"" ∷ "" ∷ "[markets.risk]" ∷ "contract_size = 1"
    ∷ "initial_margin_bp = 500      # 5%" ∷ "maintenance_margin_bp = 300  # 3%"
    ∷ "initial_mark_price = 100000  # $100,000" ∷ "" ∷ "[markets.funding]"
    ∷ "clamp_bp = 50   # 0.5%" ∷ "max_rate_bp = 100  # 1%" ∷ []

abbrev joined : List String → List ℕ
joined [] = []
joined (line ∷ lines) = codes line ++ 10 ∷ joined lines

unfoldable pub generate_default : List ℕ
generate_default = joined default_lines
