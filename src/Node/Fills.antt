-- ===== src/Node/Fills.antt =====
-- apps/tradecored/src/main.cpp: the state of the event loop, what it logs, and how it books fills.
use mmperp.Prelude.{ℕ, ◌/◌, ◌%◌, ◌^◌, Option, none, some, List, [], ◌∷◌, ◌++◌, Store}
use mmperp.Prelude.Int.{ℤ}
use mmperp.Common.Types.{Side, OrderId, value}
use mmperp.Common.Bytes.{to_bytes, to_word}
use mmperp.Ingress.{MessageKind, new_order, cancel, replace, heartbeat, Frame, Pipeline}
use mmperp.Wal.Record.{blank_header}
use mmperp.Wal.Writer.{Writer, append}
use mmperp.Snapshot.Store.{SnapshotStore}
use mmperp.Matcher.Types.{FillEvent}
use mmperp.Matcher.Engine.{Engine}
use mmperp.Risk.Types.{RiskEngine}
use mmperp.Risk.Engine.{apply_fill}
use mmperp.Api.{ApiRouter, push_express_feed_frame, push_trade_metadata}

pub record RestingOrderContext : Type 0 where
  pub account : ℕ
  pub market : ℕ
  pub side : Side

-- The variables of `main` that a round uses. The router's callbacks answer no call in a round, and what
-- they return is left as it is.
pub record Node : Type 0 where
  pub ingress : Pipeline
  pub wal : Writer
  pub api : ApiRouter
  pub risk : RiskEngine
  pub matcher : Engine
  pub resting_orders : Store RestingOrderContext
  pub default_market : ℕ
  pub chain_id : ℕ
  pub block_number : ℕ
  pub last_snapshot_block : ℕ
  pub snapshot : SnapshotStore

abbrev pub kind_byte : MessageKind → ℕ
kind_byte new_order = 0
kind_byte cancel = 1
kind_byte replace = 2
kind_byte heartbeat = 3

unfoldable pub build_wal_payload : Frame → List ℕ
build_wal_payload f =
    to_bytes 1 (kind_byte f.header.kind)
    ++ (to_bytes 8 f.header.account
        ++ (to_bytes 8 f.header.nonce
            ++ (to_bytes 8 (to_word f.header.received_time_ns) ++ f.payload)))

unfoldable pub append_ingress_wal_record : Writer → Frame → ℕ × Writer
unfolding build_wal_payload
append_ingress_wal_record w f = (w.next_sequence, append w blank_header (build_wal_payload f))

-- What each of the three loops does first with a frame.
unfoldable pub log_frame : Node → Frame → ℕ × Node
unfolding append_ingress_wal_record
log_frame n f =
    let (wal_offset, wal) = append_ingress_wal_record n.wal f in
    (
      wal_offset,
      record n {
        wal = wal;
        api =
            push_express_feed_frame n.api (record { wal_offset = wal_offset; payload = f.payload });
      },
    )

unfoldable pub decode_order_id : ℕ → OrderId
decode_order_id encoded = record {
  market = encoded / 2 ^ 48 % 2 ^ 16;
  session = encoded / 2 ^ 32 % 2 ^ 16;
  local = encoded % 2 ^ 32;
}

-- One side of a fill.
unfoldable pub book_side : RiskEngine → RestingOrderContext → FillEvent → RiskEngine
book_side risk c fill = apply_fill risk record {
  account = c.account;
  market = c.market;
  side = c.side;
  quantity = fill.quantity;
  price = fill.price;
}

-- The maker's side, if its order is known to rest.
unfoldable pub book_maker : RiskEngine → Option RestingOrderContext → FillEvent → RiskEngine
unfolding book_side
book_maker risk none fill = risk
book_maker risk (some maker) fill = book_side risk maker fill

unfoldable pub process_fill : Node → RestingOrderContext → ℕ → ℤ → FillEvent → Node
unfolding book_maker book_side
process_fill n taker wal_offset timestamp_ns fill = record n {
  risk = book_maker (book_side n.risk taker fill) (n.resting_orders (value fill.maker_order)) fill;
  api = push_trade_metadata n.api record {
    wal_offset = wal_offset;
    order_id = fill.taker_order;
    account = taker.account;
    market = taker.market;
    price = fill.price;
    quantity = fill.quantity;
    timestamp_ns = timestamp_ns;
  };
}

unfoldable pub process_fills : Node → RestingOrderContext → ℕ → ℤ → List FillEvent → Node
unfolding process_fill
process_fills n taker wal_offset timestamp_ns [] = n
process_fills n taker wal_offset timestamp_ns (fill ∷ fills) =
    process_fills (process_fill n taker wal_offset timestamp_ns fill) taker wal_offset timestamp_ns
      fills
