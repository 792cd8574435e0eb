-- ===== src/Node/Tests.antt =====
-- A round on a concrete program: one new order, no cancel and one replace wait.
use mmperp.Prelude.{
  ℕ, ◌≡◌, refl, Bool, true, none, List, [], ◌∷◌, ◌++◌, map, arith, vacant, insert, insert_self,
  length, take, replicate, ◌==◌,
}
use mmperp.Prelude.Int.{pos}
use mmperp.Common.Ring.{Ring, new_ring}
use mmperp.Common.Types.{sell}
use mmperp.Ingress.{Frame, MessageKind, new_order, replace, Pipeline, configured}
use mmperp.Ingress.Messages.{encode_new_order, decode_new_order}
use mmperp.Auth.{register_account, signature_size}
use mmperp.Wal.Reader.{scan}
use mmperp.Wal.Writer.{sync, recovered}
use mmperp.Wal.Appends.{records_from, reopened, open_writer-log_bytes}
use mmperp.Api.{new_router}
use mmperp.Node.Fills.{Node, build_wal_payload}
use mmperp.Node.Loop.{tick}
use mmperp.Node.Drained.{Waiting, Emptied, tick-Emptied}
use mmperp.Common.Types.{buy, value}
use mmperp.Matcher.Types.{FillEvent}
use mmperp.Node.Fills.{RestingOrderContext, process_fills}
use mmperp.Node.Positions.{net, IsBooked, process_fills-net}
use mmperp.Node.Durable.{IsLoggable, tick-scan}
use mmperp.Common.Bytes.{to_bytes}
use mmperp.Auth.Frames.{verify_frame_signed}
use mmperp.Node.Signed.{verify_frame-decode_new_order}

abbrev frame : MessageKind → ℕ → Frame
frame kind nonce = record {
  header = record {
    account = 3;
    nonce = nonce;
    received_time_ns = pos 9;
    priority = 0;
    kind = kind;
  };
  payload = encode_new_order record { side = sell; quantity = pos 5; price = pos 6; flags = 0 };
}

abbrev holding : Frame → Ring Frame
holding f = record { buffer = insert 3 f vacant; capacity = 4; head = 0; tail = 3 }

abbrev waiting : Pipeline
waiting =
    configured
      record {
        new_order_queue_depth = 4;
        cancel_queue_depth = 4;
        replace_queue_depth = 4;
        max_new_orders_per_second = 2;
        max_cancels_per_second = 2;
        max_replaces_per_second = 2;
      }
      none (holding (frame new_order 1)) (new_ring 4) (holding (frame replace 2))

abbrev node : Node
node = record {
  ingress = waiting;
  wal = reopened [] 64;
  api = new_router 2 2;
  risk = record { accounts = []; markets = vacant };
  matcher = vacant;
  resting_orders = vacant;
  default_market = 1;
  chain_id = 1;
  block_number = 0;
  last_snapshot_block = 0;
  snapshot = record {
    prepared = true;
    file = none;
    options = record { max_records = 2; max_file_bytes = 0 };
  };
}

abbrev frames : List Frame
frames = frame new_order 1 ∷ frame replace 2 ∷ []

node-Waiting : Waiting node.ingress (frame new_order 1 ∷ []) [] (frame replace 2 ∷ [])
unfolding insert
node-Waiting = (
  record { room = omega arith; tail_in = omega arith; head_lem = refl; slots = (refl, tt) },
  record { room = omega arith; tail_in = omega arith; head_lem = refl; slots = tt },
  record { room = omega arith; tail_in = omega arith; head_lem = refl; slots = (refl, tt) },
)

frame-IsLoggable : (kind : MessageKind) (nonce : ℕ) → IsLoggable (frame kind nonce)
unfolding encode_new_order to_bytes
frame-IsLoggable kind nonce = omega arith

tick-Emptied_example : Emptied frames node (tick node).0
tick-Emptied_example =
    tick-Emptied node (frame new_order 1 ∷ []) [] (frame replace 2 ∷ []) node-Waiting (omega arith)

tick-scan_example :
    let all = records_from (recovered 1 []) (map build_wal_payload frames) in
    let wal = (tick node).0.wal in
    (scan (sync wal).file ≡ record { records = all; failure = none })
    × ((k : ℕ) × (scan wal.file ≡ record { records = take k all; failure = none }))
tick-scan_example =
    tick-scan node [] 64 (frame new_order 1 ∷ []) [] (frame replace 2 ∷ []) tt
      (open_writer-log_bytes [] 64 tt) node-Waiting
      (frame-IsLoggable new_order 1, (frame-IsLoggable replace 2, tt)) (omega arith)

abbrev checks : List ℕ → List ℕ → List ℕ → Bool
checks key message signature = length signature == 64

verify_frame-decode_new_order_example :
    decode_new_order (replicate 64 3 ++ 9 ∷ [])
    ≡ decode_new_order (take signature_size (replicate 64 3 ++ 9 ∷ []))
verify_frame-decode_new_order_example =
    verify_frame-decode_new_order checks (register_account vacant 3 (8 ∷ [])) []
      (replicate 64 3 ++ 9 ∷ []) 3
      (verify_frame_signed checks vacant 3 (8 ∷ []) [] (9 ∷ []) (replicate 64 3) refl refl)

abbrev trade : FillEvent
trade = record {
  maker_order = record { market = 1; session = 4; local = 7 };
  taker_order = record { market = 1; session = 3; local = 1 };
  quantity = pos 5;
  price = pos 6;
}

abbrev seller : RestingOrderContext
seller = record { account = 4; market = 1; side = sell }

abbrev buyer : RestingOrderContext
buyer = record { account = 3; market = 1; side = buy }

abbrev quoted : Node
quoted = record node { resting_orders = insert (value trade.maker_order) seller vacant }

trade-IsBooked : IsBooked quoted.resting_orders buyer trade
trade-IsBooked = (seller, insert_self (value trade.maker_order) seller vacant, refl, refl)

process_fills-net_example :
    net 1 (process_fills quoted buyer 8 (pos 9) (trade ∷ [])).risk.accounts
    ≡ net 1 quoted.risk.accounts
process_fills-net_example =
    process_fills-net quoted buyer 8 (pos 9) (trade ∷ []) 1 (trade-IsBooked, tt)
