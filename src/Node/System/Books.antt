-- ===== src/Node/System/Books.antt =====
-- Every handler of a frame keeps the books of all markets sound.
use mmperp.Prelude.{
  ℕ, ◌≡◌, refl, sym, subst, Bool, true, false, not, Option, none, some, List, [], ◌∷◌,
  if◌then◌else◌,
}
use mmperp.Prelude.Int.{ℤ}
use mmperp.Common.Types.{value}
use mmperp.Ingress.{Frame}
use mmperp.Ingress.Messages.{
  NewOrder, Cancel, Replace, decode_new_order, decode_cancel, decode_replace,
}
use mmperp.Matcher.Types.{FillEvent}
use mmperp.Matcher.Engine
use mmperp.Matcher.Engine.{Engine, submit}
use mmperp.Matcher.Requests.{IsSoundEngine}
use mmperp.Matcher.Requests.Soundness.{submit-IsSound, cancel-IsSound, replace-IsSound}
use mmperp.Risk.Summary.{evaluate_order}
use mmperp.Node.Fills.{
  RestingOrderContext, Node, log_frame, decode_order_id, process_fill, process_fills,
}
use mmperp.Node.Orders.{
  intent_of, request_of, is_accepted, taker_of, book_order, place_new_order, take_new_order,
  handle_new_order, take_cancel, handle_cancel, replacer, replace_request, book_replace,
  take_replace, handle_replace,
}

pub matcher-process_fills :
    (n : Node) (c : RestingOrderContext) (offset : ℕ) (t : ℤ) (fills : List FillEvent)
    → (process_fills n c offset t fills).matcher ≡ n.matcher
unfolding process_fills process_fill
matcher-process_fills n c offset t [] = refl
matcher-process_fills n c offset t (fill ∷ fills) =
    matcher-process_fills (process_fill n c offset t fill) c offset t fills

-- The books stay sound whichever way a test goes.
IsSound-if :
    (b : Bool) (x y : Node)
    → IsSoundEngine x.matcher
    → IsSoundEngine y.matcher
    → IsSoundEngine (if b then x else y).matcher
IsSound-if true x y h k = h
IsSound-if false x y h k = k

take_new_order-IsSound :
    (n : Node) (f : Frame) (offset : ℕ) (order : Option NewOrder)
    → IsSoundEngine n.matcher
    → IsSoundEngine (take_new_order n f offset order).matcher
unfolding take_new_order place_new_order book_order
take_new_order-IsSound n f offset none h = h
take_new_order-IsSound n f offset (some order) h =
    let (result, matcher) = submit n.matcher (request_of n f order) in
    let n' : Node = record n { matcher = matcher } in
    let sound = submit-IsSound n.matcher (request_of n f order) h in
    let booked =
      matcher-process_fills n' (taker_of n' f order) offset f.header.received_time_ns
        result.fills in
    IsSound-if (is_accepted (evaluate_order n.risk (intent_of n f order)).decision) _ n
      (IsSound-if (not result.accepted) n' _ sound (subst IsSoundEngine (sym booked) sound)) h

pub handle_new_order-IsSound :
    (n : Node) (f : Frame) → IsSoundEngine n.matcher → IsSoundEngine (handle_new_order n f).matcher
unfolding handle_new_order log_frame
handle_new_order-IsSound n f =
    let (offset, n') = log_frame n f in
    take_new_order-IsSound n' f offset (decode_new_order f.payload)

take_cancel-IsSound :
    (n : Node) (c : Option Cancel)
    → IsSoundEngine n.matcher
    → IsSoundEngine (take_cancel n c).matcher
unfolding take_cancel
take_cancel-IsSound n none h = h
take_cancel-IsSound n (some c) h = cancel-IsSound n.matcher (decode_order_id c.order_id) h

pub handle_cancel-IsSound :
    (n : Node) (f : Frame) → IsSoundEngine n.matcher → IsSoundEngine (handle_cancel n f).matcher
unfolding handle_cancel log_frame
handle_cancel-IsSound n f = take_cancel-IsSound (log_frame n f).1 (decode_cancel f.payload)

take_replace-IsSound :
    (n : Node) (f : Frame) (offset : ℕ) (r : Option Replace)
    → IsSoundEngine n.matcher
    → IsSoundEngine (take_replace n f offset r).matcher
unfolding take_replace book_replace
take_replace-IsSound n f offset none h = h
take_replace-IsSound n f offset (some r) h =
    let id = decode_order_id r.order_id in
    let taker = replacer f id (n.resting_orders (value id)) in
    let (result, matcher) = Engine.replace n.matcher (replace_request r) in
    let n' : Node = record n { matcher = matcher } in
    let sound = replace-IsSound n.matcher (replace_request r) h in
    let booked = matcher-process_fills n' taker offset f.header.received_time_ns result.fills in
    IsSound-if (not result.accepted) n' _ sound (subst IsSoundEngine (sym booked) sound)

pub handle_replace-IsSound :
    (n : Node) (f : Frame) → IsSoundEngine n.matcher → IsSoundEngine (handle_replace n f).matcher
unfolding handle_replace log_frame
handle_replace-IsSound n f =
    let (offset, n') = log_frame n f in take_replace-IsSound n' f offset (decode_replace f.payload)
