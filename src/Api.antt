-- ===== src/Api.antt =====
-- libs/api/src/api_router.cpp: the router's state and operations. A provider's functions are what they
-- return at the call.
pub mod Numerals
pub mod Buffers
mod Tests
use mmperp.Prelude.{
  ℕ, zero, suc, ◌+◌, ◌-◌, ◌/◌, ◌%◌, Bool, true, false, ◌||◌, not, Option, none, List, [], ◌∷◌, ◌++◌,
  length, ltb, leb, ◌==◌, if◌then◌else◌, is_nil, or_default,
}
use mmperp.Prelude.Int.{ℤ}
use mmperp.Prelude.Texts.{codes, same}
use mmperp.Common.Types.{OrderId}

-- `std::hex` and the decimal form of a number of 64 bits: at most 16 and 20 digits.
unfoldable pub digit : ℕ → ℕ
digit d = if ltb d 10 then b'0' + d else b'a' + (d - 10)

unfoldable pub digits_on : ℕ → ℕ → ℕ → List ℕ → List ℕ
unfolding digit
digits_on zero base n later = later
digits_on (suc fuel) base n later =
    let later' = digit (n % base) ∷ later in
    let more = digits_on fuel base (n / base) later' in if n / base == 0 then later' else more

unfoldable pub to_hex : ℕ → List ℕ
unfolding digits_on
to_hex n = codes "0x" ++ digits_on 16 16 n []

unfoldable pub to_decimal : ℕ → List ℕ
unfolding digits_on
to_decimal n = digits_on 20 10 n []

unfoldable pub evict {ℓ} : {A : Type ℓ} → ℕ → List A → List A
evict max_size [] = []
evict max_size (x ∷ xs) =
    let fewer = evict max_size xs in if leb max_size (length (x ∷ xs)) then fewer else x ∷ xs

unfoldable pub push_with_fifo_eviction {ℓ} : {A : Type ℓ} → List A → ℕ → A → List A
unfolding evict
push_with_fifo_eviction buffer max_size v =
    if max_size == 0 then buffer else evict max_size buffer ++ v ∷ []

pub record ExpressFeedFrame : Type 0 where
  pub wal_offset : ℕ
  pub payload : List ℕ

pub record TradeMetadata : Type 0 where
  pub wal_offset : ℕ
  pub order_id : OrderId
  pub account : ℕ
  pub market : ℕ
  pub price : ℤ
  pub quantity : ℤ
  pub timestamp_ns : ℤ

pub record NodeStatus : Type 0 where
  pub chain_id : ℕ
  pub block_number : ℕ
  pub peer_connections : ℕ
  pub healthy : Bool

pub record NodeStateProvider : Type 0 where
  pub chain_id : Option ℕ
  pub block_number : Option ℕ
  pub peer_connections : Option ℕ
  pub healthy : Option Bool

pub record ApiRouter : Type 0 where
  pub endpoints : List (List ℕ)
  pub express_feed_frames : List ExpressFeedFrame
  pub trade_metadata : List TradeMetadata
  pub express_feed_capacity : ℕ
  pub trade_metadata_capacity : ℕ
  pub node_state_provider : NodeStateProvider

abbrev pub at_least_one : ℕ → ℕ
at_least_one n = if ltb n 1 then 1 else n

abbrev pub no_provider : NodeStateProvider
no_provider = record {
  chain_id = none;
  block_number = none;
  peer_connections = none;
  healthy = none;
}

unfoldable pub new_router : ℕ → ℕ → ApiRouter
new_router express_feed_capacity trade_metadata_capacity = record {
  endpoints = [];
  express_feed_frames = [];
  trade_metadata = [];
  express_feed_capacity = at_least_one express_feed_capacity;
  trade_metadata_capacity = at_least_one trade_metadata_capacity;
  node_state_provider = no_provider;
}

abbrev pub contains : List ℕ → List (List ℕ) → Bool
contains name [] = false
contains name (n ∷ ns) = same name n || contains name ns

unfoldable pub register_endpoint : ApiRouter → List ℕ → ApiRouter
register_endpoint r name =
    if is_nil name || contains name r.endpoints
    then r
    else record r { endpoints = name ∷ r.endpoints }

unfoldable pub has_endpoint : ApiRouter → List ℕ → Bool
has_endpoint r name = contains name r.endpoints

unfoldable pub set_node_state_provider : ApiRouter → NodeStateProvider → ApiRouter
set_node_state_provider r p = record r { node_state_provider = p }

unfoldable pub node_status : ApiRouter → NodeStatus
node_status r =
    let p = r.node_state_provider in
    record {
      chain_id = or_default 1 p.chain_id;
      block_number = or_default 0 p.block_number;
      peer_connections = or_default 0 p.peer_connections;
      healthy = or_default true p.healthy;
    }

unfoldable pub eth_chain_id : ApiRouter → List ℕ
eth_chain_id r = to_hex (node_status r).chain_id

unfoldable pub eth_block_number : ApiRouter → List ℕ
eth_block_number r = to_hex (node_status r).block_number

abbrev pub quote : List ℕ
quote = b'"' ∷ []

abbrev pub key_text : List ℕ → List ℕ
key_text name = quote ++ (name ++ (quote ++ codes ":"))

unfoldable pub monmouth_node_status : ApiRouter → List ℕ
monmouth_node_status r =
    let s = node_status r in
    codes "{"
    ++ (key_text (codes "healthy")
        ++ ((if s.healthy then codes "true" else codes "false")
            ++ (codes ","
                ++ (key_text (codes "chainId")
                    ++ (quote
                        ++ (to_hex s.chain_id
                            ++ (quote
                                ++ (codes ","
                                    ++ (key_text (codes "blockNumber")
                                        ++ (quote
                                            ++ (to_hex s.block_number
                                                ++ (quote
                                                    ++ (codes ","
                                                        ++ (key_text (codes "peerConnections")
                                                            ++ (to_decimal s.peer_connections
                                                            ++ codes "}")))))))))))))))

unfoldable pub rpc_result : ApiRouter → List ℕ → List ℕ
rpc_result r method =
    if same method (codes "eth_chainId")
    then eth_chain_id r
    else if same method (codes "eth_blockNumber")
    then eth_block_number r
    else if same method (codes "monmouth_nodeStatus")
    then monmouth_node_status r
    else codes "{"
      ++ (key_text (codes "error") ++ (quote ++ (codes "method not found" ++ (quote ++ codes "}"))))

unfoldable pub push_express_feed_frame : ApiRouter → ExpressFeedFrame → ApiRouter
push_express_feed_frame r f = record r {
  express_feed_frames = push_with_fifo_eviction r.express_feed_frames r.express_feed_capacity f;
}

unfoldable pub push_trade_metadata : ApiRouter → TradeMetadata → ApiRouter
push_trade_metadata r t = record r {
  trade_metadata = push_with_fifo_eviction r.trade_metadata r.trade_metadata_capacity t;
}

abbrev pub frames_since : ℕ → List ExpressFeedFrame → List ExpressFeedFrame
frames_since min_wal_offset [] = []
frames_since min_wal_offset (f ∷ fs) =
    if leb min_wal_offset f.wal_offset
    then f ∷ frames_since min_wal_offset fs
    else frames_since min_wal_offset fs

unfoldable pub get_express_feed_frames : ApiRouter → ℕ → List ExpressFeedFrame
get_express_feed_frames r min_wal_offset = frames_since min_wal_offset r.express_feed_frames

abbrev pub trades_since : ℕ → List TradeMetadata → List TradeMetadata
trades_since min_wal_offset [] = []
trades_since min_wal_offset (t ∷ ts) =
    if leb min_wal_offset t.wal_offset
    then t ∷ trades_since min_wal_offset ts
    else trades_since min_wal_offset ts

unfoldable pub get_trade_metadata : ApiRouter → ℕ → List TradeMetadata
get_trade_metadata r min_wal_offset = trades_since min_wal_offset r.trade_metadata

unfoldable pub endpoint_count : ApiRouter → ℕ
endpoint_count r = length r.endpoints

unfoldable pub express_feed_frame_count : ApiRouter → ℕ
express_feed_frame_count r = length r.express_feed_frames

unfoldable pub trade_metadata_count : ApiRouter → ℕ
trade_metadata_count r = length r.trade_metadata
