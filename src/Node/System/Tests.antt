-- ===== src/Node/System/Tests.antt =====
-- A program that starts on an empty log, and a run of it: a new order and a cancel arrive, and the order
-- is taken.
pub mod Restarts
pub mod Sales
use mmperp.Prelude.{
  ℕ, zero, suc, ◌+◌, ◌-◌, ◌*◌, ◌/◌, ◌%◌, ◌^◌, ◌≤◌, ◌<◌, ◌≡◌, ◌≢◌, ◌↔◌, ◌⊎◌, inl, inr, refl, sym, ap,
  ◌∙◌, subst, Bool, true, false, ◌&&◌, ◌||◌, not, Option, none, some, ◌>>=◌, List, [], ◌∷◌, ◌++◌,
  map, append-nil, append_assoc, arith, Store, vacant, insert, erase, insert_self, insert_ne,
  erase_self, erase_ne, Assoc, lookup, assign, lookup-assign, length, length-append, length-take,
  length-drop, take-append-drop, All-append, take_whole, get_elem?, set, take, drop, replicate, All,
  ltb, leb, ◌==◌, if◌then◌else◌, Bool-cases, Option-cases, is_nil, or_default, get_or, dec_lt,
}
use mmperp.Prelude.Int.{pos, ◌-ℤ◌}
use mmperp.Prelude.Texts.{codes}
use mmperp.Common.Ring.{new_ring, push, pop}
use mmperp.Ingress.{
  Frame, MessageKind, new_order, cancel, replace, Pipeline, configured, next_new_order,
}
use mmperp.Ingress.Arrivals.{of_kind, InQueues, queued_frames}
use mmperp.Auth.{verify_frame, register_account}
use mmperp.Transport.Udp.{new_transport}
use mmperp.Matcher.Requests.{IsSoundEngine}
use mmperp.Wal.Reader.{scan}
use mmperp.Wal.Writer.{sync, opened, open_writer, recovered}
use mmperp.Wal.Logs.{log_bytes}
use mmperp.Wal.Appends.{records_from, reopened}
use mmperp.Config.{EngineConfig, default_engine, default_market_config}
use mmperp.Config.Parsing.{LoadResult}
use mmperp.Node.Fills.{Node, build_wal_payload}
use mmperp.Node.Orders.{handle_new_order}
use mmperp.Node.Loop.{tick}
use mmperp.Node.Start.{
  shut_down, boot_log, Environment, Program, started, boot, boot_node, boot_telemetry,
  configure_all, no_engines, auth_verifier, ingress_config,
}
use mmperp.Node.System.{Run, begin, and_then, arrives, takes_order, arrive}
use mmperp.Node.System.Histories.{
  Served, killed, shut, Session, History, new_log, kills, shuts, AreKept, History-scan,
}
use mmperp.Node.Positions.{net}
use mmperp.Node.Tracked.{IsTracked}
use mmperp.Node.System.Settled.{AllUnused, Run-net}
use mmperp.Common.Types.{Side, sell}
use mmperp.Ingress.Messages.{encode_new_order}
use mmperp.Risk.Types.{RiskEngine}
use mmperp.Risk.Engine.{credit_collateral}
use mmperp.Node.System.Delivery.{Run-delivers, tick-delivers}

abbrev pub environment : Environment
environment = record {
  test_pubkey = 8 ∷ [];
  valid = λ key message signature. length signature == 64;
  header_bytes = λ header. header.account ∷ [];
  sockets = record { socket_made = true; address_valid = λ host. true; bound = true };
  log = [];
  snapshots = none;
  chain_id = none;
}

abbrev pub config : EngineConfig
config = record default_engine { markets = default_market_config ∷ [] }

abbrev pub loaded : LoadResult
loaded = record { success = true; config = config; errors = []; raw_error = [] }

abbrev pub ingress : Pipeline
ingress =
    configured (ingress_config config) (some (auth_verifier environment)) (new_ring 4096)
      (new_ring 4096) (new_ring 4096)

abbrev pub program : Program
program = record {
  node =
      boot_node environment config ingress (configure_all no_engines config.markets)
        (reopened [] 128) 1;
  funding = (configure_all no_engines config.markets).funding;
  telemetry = boot_telemetry true;
  transport = record {
    transport = record new_transport { running = true; socket_open = true };
    endpoint = codes "quic://127.0.0.1:9000";
  };
}

pub boots : boot environment loaded ≡ started program
unfolding boot mmperp.Transport.Endpoint.parse_endpoint open_writer mmperp.Wal.Reader.scan_on
    mmperp.Wal.Reader.next mmperp.Wal.Record.read_header mmperp.Common.Bytes.read_word log_bytes
boots = refl

no_log : environment.log ≡ log_bytes []
unfolding log_bytes
no_log = refl

abbrev signed : MessageKind → ℕ → Frame
signed kind nonce = record {
  header = record {
    account = 1;
    nonce = nonce;
    received_time_ns = pos 9;
    priority = 0;
    kind = kind;
  };
  payload = replicate 64 3;
}

abbrev pub first : Frame
first = signed new_order 1

abbrev pub second : Frame
second = signed cancel 2

abbrev after_first : Node
after_first = arrive program.node first

abbrev after_second : Node
after_second = arrive after_first second

abbrev pub after_order : Node
after_order =
    handle_new_order (record after_second { ingress = (next_new_order after_second.ingress).1 })
      first

order_found :
    next_new_order after_second.ingress ≡ (some first, (next_new_order after_second.ingress).1)
unfolding next_new_order arrive pop auth_verifier mmperp.Auth.verify insert ◌-ℤ◌ push
order_found = refl

pub ran : Run program.node (first ∷ second ∷ []) (first ∷ []) after_order
unfolding queued_frames auth_verifier mmperp.Auth.verify insert ◌-ℤ◌ push arrive
ran =
    and_then (and_then (and_then begin (arrives program.node first)) (arrives after_first second))
      (takes_order after_second first (next_new_order after_second.ingress).1 order_found)

Run-delivers_example :
    let all = records_from (recovered 1 []) (map build_wal_payload (first ∷ [])) in
    let n = after_order in
    let queued = first ∷ second ∷ [] in
    IsSoundEngine n.matcher
    × ((orders : List Frame) × (cancels : List Frame) × (replaces : List Frame) × InQueues
          n.ingress.queues orders cancels replaces
        × (of_kind new_order queued ≡ of_kind new_order (first ∷ []) ++ orders)
        × (of_kind cancel queued ≡ of_kind cancel (first ∷ []) ++ cancels)
        × (of_kind replace queued ≡ of_kind replace (first ∷ []) ++ replaces))
    × (scan (sync n.wal).file ≡ record { records = all; failure = none })
    × ((k : ℕ) × (scan n.wal.file ≡ record { records = take k all; failure = none }))
Run-delivers_example =
    Run-delivers environment loaded program [] (first ∷ second ∷ []) (first ∷ []) after_order boots
      no_log tt ran (omega arith, (omega arith, tt))

tick-delivers_example :
    let n' = (tick after_order).0 in
    let queued = first ∷ second ∷ [] in
    (handled : List Frame) × Run program.node queued handled n'
    × (of_kind new_order queued ≡ of_kind new_order handled)
    × (of_kind cancel queued ≡ of_kind cancel handled)
    × (of_kind replace queued ≡ of_kind replace handled)
    × (scan (sync n'.wal).file ≡ record {
      records = records_from (recovered 1 []) (map build_wal_payload handled);
      failure = none;
    })
tick-delivers_example =
    tick-delivers environment loaded program [] (first ∷ second ∷ []) (first ∷ []) after_order boots
      no_log tt ran (omega arith, (omega arith, tt))
