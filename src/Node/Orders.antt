-- ===== src/Node/Orders.antt =====
-- apps/tradecored/src/main.cpp: the bodies of the three loops over the queues. The exception of a
-- decoder is caught, and leaves what the frame has done so far.
use mmperp.Prelude.{
  ℕ, ◌%◌, ◌^◌, Bool, true, false, not, Option, none, some, Store, insert, erase, if◌then◌else◌,
}
use mmperp.Prelude.Int.{pos}
use mmperp.Common.Types.{OrderId, value, gtc, has_flag, reduce_only, buy}
use mmperp.Ingress.{Frame}
use mmperp.Ingress.Messages.{
  NewOrder, Cancel, Replace, decode_new_order, decode_cancel, decode_replace,
}
use mmperp.Matcher.Types.{OrderRequest, ReplaceRequest, OrderResult, ReplaceResult}
use mmperp.Matcher.Engine
use mmperp.Matcher.Engine.{submit}
use mmperp.Risk.Types.{Decision, accepted, OrderIntent}
use mmperp.Risk.Summary.{evaluate_order}
use mmperp.Node.Fills.{RestingOrderContext, Node, log_frame, decode_order_id, process_fills}

unfoldable pub order_id_of : Node → Frame → OrderId
order_id_of n f = record {
  market = n.default_market;
  session = f.header.account % 2 ^ 16;
  local = f.header.nonce % 2 ^ 32;
}

unfoldable pub intent_of : Node → Frame → NewOrder → OrderIntent
intent_of n f order = record {
  account = f.header.account;
  market = n.default_market;
  side = order.side;
  quantity = order.quantity;
  limit_price = order.price;
  reduce_only = has_flag order.flags reduce_only;
}

unfoldable pub request_of : Node → Frame → NewOrder → OrderRequest
unfolding order_id_of
request_of n f order = record {
  id = order_id_of n f;
  account = f.header.account;
  side = order.side;
  quantity = order.quantity;
  price = order.price;
  display_quantity = pos 0;
  tif = gtc;
  flags = order.flags;
}

abbrev pub is_accepted : Decision → Bool
is_accepted accepted = true
is_accepted _ = false

-- The context stays known while the order rests.
abbrev pub track :
    Bool → ℕ → RestingOrderContext → Store RestingOrderContext → Store RestingOrderContext
track true key c resting = insert key c resting
track false key c resting = erase key resting

abbrev pub taker_of : Node → Frame → NewOrder → RestingOrderContext
taker_of n f order = record {
  account = f.header.account;
  market = n.default_market;
  side = order.side;
}

unfoldable pub book_order : Node → Frame → ℕ → NewOrder → OrderResult → Node
book_order n f wal_offset order result =
    let taker = taker_of n f order in
    let n' = process_fills n taker wal_offset f.header.received_time_ns result.fills in
    if not result.accepted then n else record n' {
      resting_orders = track result.resting (value (order_id_of n f)) taker n'.resting_orders;
    }

unfoldable pub place_new_order : Node → Frame → ℕ → NewOrder → Node
unfolding book_order request_of
place_new_order n f wal_offset order =
    let (result, matcher) = submit n.matcher (request_of n f order) in
    book_order (record n { matcher = matcher }) f wal_offset order result

unfoldable pub take_new_order : Node → Frame → ℕ → Option NewOrder → Node
unfolding place_new_order intent_of
take_new_order n f wal_offset none = n
take_new_order n f wal_offset (some order) =
    if is_accepted (evaluate_order n.risk (intent_of n f order)).decision
    then place_new_order n f wal_offset order
    else n

unfoldable pub handle_new_order : Node → Frame → Node
unfolding take_new_order log_frame
handle_new_order n f =
    let (wal_offset, n') = log_frame n f in
    take_new_order n' f wal_offset (decode_new_order f.payload)

abbrev pub forget : Bool → ℕ → Store RestingOrderContext → Store RestingOrderContext
forget true key resting = erase key resting
forget false key resting = resting

unfoldable pub take_cancel : Node → Option Cancel → Node
take_cancel n none = n
take_cancel n (some c) =
    let id = decode_order_id c.order_id in
    let (result, matcher) = Engine.cancel n.matcher id in
    record n {
      matcher = matcher;
      resting_orders = forget result.cancelled (value id) n.resting_orders;
    }

unfoldable pub handle_cancel : Node → Frame → Node
unfolding take_cancel log_frame
handle_cancel n f = take_cancel (log_frame n f).1 (decode_cancel f.payload)

-- Who replaces: the context of the order, or the sender, as a buyer.
abbrev pub replacer : Frame → OrderId → Option RestingOrderContext → RestingOrderContext
replacer f id none = record { account = f.header.account; market = id.market; side = buy }
replacer f id (some c) = c

unfoldable pub book_replace :
    Node → Frame → ℕ → OrderId → RestingOrderContext → ReplaceResult → Node
book_replace n f wal_offset id taker result =
    let n' = process_fills n taker wal_offset f.header.received_time_ns result.fills in
    if not result.accepted
    then n
    else record n' { resting_orders = track result.resting (value id) taker n'.resting_orders }

abbrev pub replace_request : Replace → ReplaceRequest
replace_request r = record {
  id = decode_order_id r.order_id;
  new_quantity = r.new_quantity;
  new_price = r.new_price;
  new_display_quantity = pos 0;
  new_tif = gtc;
  new_flags = r.new_flags;
}

unfoldable pub take_replace : Node → Frame → ℕ → Option Replace → Node
unfolding book_replace
take_replace n f wal_offset none = n
take_replace n f wal_offset (some r) =
    let id = decode_order_id r.order_id in
    let taker = replacer f id (n.resting_orders (value id)) in
    let (result, matcher) = Engine.replace n.matcher (replace_request r) in
    book_replace (record n { matcher = matcher }) f wal_offset id taker result

unfoldable pub handle_replace : Node → Frame → Node
unfolding take_replace log_frame
handle_replace n f =
    let (wal_offset, n') = log_frame n f in take_replace n' f wal_offset (decode_replace f.payload)
