-- ===== src/Node/Drained.antt =====
-- The loops over the queues come to an end, and leave one record for each frame.
use mmperp.Prelude.{
  ℕ, zero, suc, ◌+◌, ◌-◌, ◌%◌, ◌^◌, ◌<◌, ◌≡◌, refl, sym, ap, ◌∙◌, subst, Bool, true, false, not,
  Option, none, some, List, [], ◌∷◌, ◌++◌, map, arith, length, length-append, ltb, leb,
  if◌then◌else◌,
}
use mmperp.Common.Ring.{Ring, pop}
use mmperp.Common.Ring.Refine.{Represents, queue_pop, pop-Represents}
use mmperp.Prelude.Int.{ℤ}
use mmperp.Common.Types.{value}
use mmperp.Ingress.{Frame, Pipeline, next_new_order, next_cancel, next_replace}
use mmperp.Ingress.Arrivals.{InQueues}
use mmperp.Ingress.Messages.{
  NewOrder, Cancel, Replace, decode_new_order, decode_cancel, decode_replace,
}
use mmperp.Wal.Record.{blank_header}
use mmperp.Wal.Writer.{Writer, append}
use mmperp.Wal.Appends.{append_all}
use mmperp.Matcher.Types.{FillEvent, OrderResult}
use mmperp.Matcher.Engine
use mmperp.Matcher.Engine.{submit}
use mmperp.Risk.Summary.{evaluate_order}
use mmperp.Node.Fills.{
  Node, RestingOrderContext, build_wal_payload, append_ingress_wal_record, log_frame, process_fill,
  process_fills, decode_order_id,
}
use mmperp.Node.Orders.{
  intent_of, request_of, is_accepted, book_order, place_new_order, take_new_order, handle_new_order,
  take_cancel, handle_cancel, book_replace, take_replace, handle_replace, taker_of, replacer,
  replace_request,
}
use mmperp.Snapshot.Record.{SnapshotError}
use mmperp.Node.Loop.{
  snapshot_interval, drain, drain_next, process_new_orders, process_cancels, process_replaces, tick,
  advance_block,
}

-- Neither the queues, the log nor the block change.
record Kept (n n' : Node) : Type 0 where
  ingress_lem : n'.ingress ≡ n.ingress
  wal_lem : n'.wal ≡ n.wal
  block_lem : n'.block_number ≡ n.block_number

kept : {n : Node} → Kept n n
kept = record { ingress_lem = refl; wal_lem = refl; block_lem = refl }

Kept-if : (b : Bool) {n x y : Node} → Kept n x → Kept n y → Kept n (if b then x else y)
Kept-if true h k = h
Kept-if false h k = k

process_fills-Kept :
    (n : Node) (c : RestingOrderContext) (offset : ℕ) (t : ℤ) (fills : List FillEvent)
    → Kept n (process_fills n c offset t fills)
unfolding process_fills process_fill
process_fills-Kept n c offset t [] = kept
process_fills-Kept n c offset t (fill ∷ fills) =
    let h = process_fills-Kept (process_fill n c offset t fill) c offset t fills in
    record { ingress_lem = h.ingress_lem; wal_lem = h.wal_lem; block_lem = h.block_lem }

book_order-Kept :
    (n : Node) (f : Frame) (offset : ℕ) (order : NewOrder) (result : OrderResult)
    → Kept n (book_order n f offset order result)
unfolding book_order
book_order-Kept n f offset order result =
    let h =
      process_fills-Kept n (taker_of n f order) offset f.header.received_time_ns result.fills in
    Kept-if (not result.accepted) kept
      record { ingress_lem = h.ingress_lem; wal_lem = h.wal_lem; block_lem = h.block_lem }

take_new_order-Kept :
    (n : Node) (f : Frame) (offset : ℕ) (order : Option NewOrder)
    → Kept n (take_new_order n f offset order)
unfolding take_new_order place_new_order
take_new_order-Kept n f offset none = kept
take_new_order-Kept n f offset (some order) =
    let (result, matcher) = submit n.matcher (request_of n f order) in
    let h = book_order-Kept (record n { matcher = matcher }) f offset order result in
    Kept-if (is_accepted (evaluate_order n.risk (intent_of n f order)).decision)
      record { ingress_lem = h.ingress_lem; wal_lem = h.wal_lem; block_lem = h.block_lem } kept

take_cancel-Kept : (n : Node) (c : Option Cancel) → Kept n (take_cancel n c)
unfolding take_cancel
take_cancel-Kept n none = kept
take_cancel-Kept n (some c) = record { ingress_lem = refl; wal_lem = refl; block_lem = refl }

take_replace-Kept :
    (n : Node) (f : Frame) (offset : ℕ) (r : Option Replace) → Kept n (take_replace n f offset r)
unfolding take_replace book_replace
take_replace-Kept n f offset none = kept
take_replace-Kept n f offset (some r) =
    let id = decode_order_id r.order_id in
    let taker = replacer f id (n.resting_orders (value id)) in
    let (result, matcher) = Engine.replace n.matcher (replace_request r) in
    let h =
      process_fills-Kept (record n { matcher = matcher }) taker offset f.header.received_time_ns
        result.fills in
    Kept-if (not result.accepted) record { ingress_lem = refl; wal_lem = refl; block_lem = refl }
      record { ingress_lem = h.ingress_lem; wal_lem = h.wal_lem; block_lem = h.block_lem }

-- One record for the frame, and the queues as they are.
pub record Logged (n : Node) (f : Frame) (n' : Node) : Type 0 where
  pub ingress_lem : n'.ingress ≡ n.ingress
  pub wal_lem : n'.wal ≡ append n.wal blank_header (build_wal_payload f)
  pub block_lem : n'.block_number ≡ n.block_number

Kept-Logged : {n n' : Node} {f : Frame} → Kept (log_frame n f).1 n' → Logged n f n'
unfolding log_frame append_ingress_wal_record
Kept-Logged h = record { ingress_lem = h.ingress_lem; wal_lem = h.wal_lem; block_lem = h.block_lem }

pub handle_new_order-Logged : (n : Node) (f : Frame) → Logged n f (handle_new_order n f)
unfolding handle_new_order
handle_new_order-Logged n f =
    let (offset, n') = log_frame n f in
    Kept-Logged (take_new_order-Kept n' f offset (decode_new_order f.payload))

pub handle_cancel-Logged : (n : Node) (f : Frame) → Logged n f (handle_cancel n f)
unfolding handle_cancel
handle_cancel-Logged n f =
    Kept-Logged (take_cancel-Kept (log_frame n f).1 (decode_cancel f.payload))

pub handle_replace-Logged : (n : Node) (f : Frame) → Logged n f (handle_replace n f)
unfolding handle_replace
handle_replace-Logged n f =
    let (offset, n') = log_frame n f in
    Kept-Logged (take_replace-Kept n' f offset (decode_replace f.payload))

-- A queue of the three, and what is to stay true of the others.
pub record Source (next : Pipeline → Option Frame × Pipeline) (ring : Pipeline → Ring Frame)
    (Others : Pipeline → Type 0) : Type 0 where
  pub frame_lem : (p : Pipeline) → (next p).0 ≡ (pop (ring p)).0
  pub ring_lem : (p : Pipeline) → ring (next p).1 ≡ (pop (ring p)).1
  pub others_lem : (p : Pipeline) → Others p → Others (next p).1

-- The result of a loop that found the frames `q`.
pub record Drained (ring : Pipeline → Ring Frame) (Others : Pipeline → Type 0) (q : List Frame)
    (n : Node) (result : ℕ × Node) : Type 0 where
  pub count_lem : result.0 ≡ length q % 2 ^ 64
  pub empty_lem : Represents (ring result.1.ingress) []
  pub others_lem : Others result.1.ingress
  pub wal_lem : result.1.wal ≡ append_all n.wal (map build_wal_payload q)
  pub block_lem : result.1.block_number ≡ n.block_number

module _ {next : Pipeline → Option Frame × Pipeline} {ring : Pipeline → Ring Frame}
    {Others : Pipeline → Type 0} (source : Source next ring Others) (handle : Node → Frame → Node)
    (logs : (n : Node) (f : Frame) → Logged n f (handle n f)) where
  drain-Drained :
      (fuel : ℕ) (n : Node) (q : List Frame)
      → length q < fuel
      → Represents (ring n.ingress) q
      → Others n.ingress
      → Drained ring Others q n (drain next handle fuel n)
  unfolding drain drain_next append_all queue_pop
  drain-Drained zero n q l h o = absurd (omega arith)
  drain-Drained (suc fuel) n [] l h o =
      let (e, h') = pop-Represents (ring n.ingress) [] h in
      subst
        (λ out.
          Drained ring Others [] n
            (drain_next handle (out, (next n.ingress).1) n (drain next handle fuel)))
        (sym (source.frame_lem n.ingress ∙ e))
        record {
          count_lem = refl;
          empty_lem = subst (λ r. Represents r []) (sym (source.ring_lem n.ingress)) h';
          others_lem = source.others_lem n.ingress o;
          wal_lem = refl;
          block_lem = refl;
        }
  drain-Drained (suc fuel) n (f ∷ q) l h o =
      let p = (next n.ingress).1 in
      let (e, h') = pop-Represents (ring n.ingress) (f ∷ q) h in
      let n' = handle (record n { ingress = p }) f in
      let logged = logs (record n { ingress = p }) f in
      let rest =
        drain-Drained fuel n' q (omega arith)
          (subst (λ i. Represents (ring i) q) (sym logged.ingress_lem)
            (subst (λ r. Represents r q) (sym (source.ring_lem n.ingress)) h'))
          (subst Others (sym logged.ingress_lem) (source.others_lem n.ingress o)) in
      subst
        (λ out.
          Drained ring Others (f ∷ q) n (drain_next handle (out, p) n (drain next handle fuel)))
        (sym (source.frame_lem n.ingress ∙ e))
        record {
          count_lem = omega (arith, rest.count_lem);
          empty_lem = rest.empty_lem;
          others_lem = rest.others_lem;
          wal_lem = rest.wal_lem ∙ ap (λ w. append_all w (map build_wal_payload q)) logged.wal_lem;
          block_lem = rest.block_lem ∙ logged.block_lem;
        }

-- The frames that wait in the three queues.
abbrev pub Waiting : Pipeline → List Frame → List Frame → List Frame → Type 0
Waiting p = InQueues p.queues

abbrev pub new_orders_ring : Pipeline → Ring Frame
new_orders_ring p = p.queues.new_orders

abbrev pub cancels_ring : Pipeline → Ring Frame
cancels_ring p = p.queues.cancels

abbrev pub replaces_ring : Pipeline → Ring Frame
replaces_ring p = p.queues.replaces

-- What waits in the other queues stays there.
abbrev pub Behind : List Frame → List Frame → Pipeline → Type 0
Behind cancels replaces p =
    Represents p.queues.cancels cancels × Represents p.queues.replaces replaces

abbrev pub Around : List Frame → Pipeline → Type 0
Around replaces p = Represents p.queues.new_orders [] × Represents p.queues.replaces replaces

abbrev pub Before : Pipeline → Type 0
Before p = Represents p.queues.new_orders [] × Represents p.queues.cancels []

pub new_orders-Source :
    (cancels replaces : List Frame)
    → Source next_new_order new_orders_ring (Behind cancels replaces)
unfolding next_new_order
new_orders-Source cancels replaces = record {
  frame_lem = λ p. refl;
  ring_lem = λ p. refl;
  others_lem = λ p o. o;
}

pub cancels-Source : (replaces : List Frame) → Source next_cancel cancels_ring (Around replaces)
unfolding next_cancel
cancels-Source replaces = record {
  frame_lem = λ p. refl;
  ring_lem = λ p. refl;
  others_lem = λ p o. o;
}

pub replaces-Source : Source next_replace replaces_ring Before
unfolding next_replace
replaces-Source = record { frame_lem = λ p. refl; ring_lem = λ p. refl; others_lem = λ p o. o }

pub new_orders-Drained :
    (n : Node) (orders cancels replaces : List Frame)
    → Waiting n.ingress orders cancels replaces
    → Drained new_orders_ring (Behind cancels replaces) orders n (process_new_orders n)
unfolding process_new_orders
new_orders-Drained n orders cancels replaces (h, c, r) =
    drain-Drained (new_orders-Source cancels replaces) handle_new_order handle_new_order-Logged
      n.ingress.queues.new_orders.capacity n orders h.room h (c, r)

pub cancels-Drained :
    (n : Node) (cancels replaces : List Frame)
    → Waiting n.ingress [] cancels replaces
    → Drained cancels_ring (Around replaces) cancels n (process_cancels n)
unfolding process_cancels
cancels-Drained n cancels replaces (o, h, r) =
    drain-Drained (cancels-Source replaces) handle_cancel handle_cancel-Logged
      n.ingress.queues.cancels.capacity n cancels h.room h (o, r)

pub replaces-Drained :
    (n : Node) (replaces : List Frame)
    → Waiting n.ingress [] [] replaces
    → Drained replaces_ring Before replaces n (process_replaces n)
unfolding process_replaces
replaces-Drained n replaces (o, c, h) =
    drain-Drained replaces-Source handle_replace handle_replace-Logged
      n.ingress.queues.replaces.capacity n replaces h.room h (o, c)

pub append_frames :
    (w : Writer) (xs ys : List Frame)
    → append_all w (map build_wal_payload (xs ++ ys))
      ≡ append_all (append_all w (map build_wal_payload xs)) (map build_wal_payload ys)
unfolding append_all
append_frames w [] ys = refl
append_frames w (x ∷ xs) ys = append_frames (append w blank_header (build_wal_payload x)) xs ys

-- What a round leaves of the frames that waited before it.
pub record Emptied (frames : List Frame) (n n' : Node) : Type 0 where
  pub waiting : Waiting n'.ingress [] [] []
  pub wal_lem : n'.wal ≡ append_all n.wal (map build_wal_payload frames)
  pub block_lem : n'.block_number ≡ (n.block_number + length frames) % 2 ^ 64

Emptied-if :
    {frames : List Frame} {n : Node} (b : Bool) (x y : Node × Option SnapshotError)
    → (b ≡ true → Emptied frames n x.0)
    → (b ≡ false → Emptied frames n y.0)
    → Emptied frames n (if b then x else y).0
Emptied-if true x y h k = h refl
Emptied-if false x y h k = k refl

-- Whether or not it takes a snapshot.
advance_block-Emptied :
    (n n' : Node) (frames : List Frame) (processed : ℕ)
    → Waiting n'.ingress [] [] []
    → n'.wal ≡ append_all n.wal (map build_wal_payload frames)
    → n'.block_number ≡ n.block_number
    → processed ≡ length frames % 2 ^ 64
    → Emptied frames n (advance_block n' processed).0
unfolding advance_block
advance_block-Emptied n n' frames processed w e b c =
    let new_block = (n'.block_number + processed) % 2 ^ 64 in
    let blocks : new_block ≡ (n.block_number + length frames) % 2 ^ 64 = omega (arith, b, c) in
    Emptied-if (leb snapshot_interval ((new_block + 2 ^ 64 - n'.last_snapshot_block) % 2 ^ 64)) _ _
      (λ h. record { waiting = w; wal_lem = e; block_lem = blocks })
      (λ h. record { waiting = w; wal_lem = e; block_lem = blocks })

no_frames : (b l c : ℕ) → b < 2 ^ 64 → c ≡ l % 2 ^ 64 → ltb 0 c ≡ false → b ≡ (b + l) % 2 ^ 64
no_frames b l c h e t = ground arith

-- A round of the event loop leaves the three queues empty, whatever waited in them, has appended
-- one record for each frame to the log, the new orders before the cancels and these before the
-- replaces, and has raised the block number by the number of frames.
pub tick-Emptied :
    (n : Node) (orders cancels replaces : List Frame)
    → Waiting n.ingress orders cancels replaces
    → n.block_number < 2 ^ 64
    → Emptied (orders ++ (cancels ++ replaces)) n (tick n).0
unfolding tick
tick-Emptied n orders cancels replaces w l =
    let frames = orders ++ (cancels ++ replaces) in
    let (k1, n1) = process_new_orders n in
    let d1 = new_orders-Drained n orders cancels replaces w in
    let (k2, n2) = process_cancels n1 in
    let d2 = cancels-Drained n1 cancels replaces (d1.empty_lem, d1.others_lem.0, d1.others_lem.1) in
    let (k3, n3) = process_replaces n2 in
    let d3 = replaces-Drained n2 replaces (d2.others_lem.0, d2.empty_lem, d2.others_lem.1) in
    let e : n3.wal ≡ append_all n.wal (map build_wal_payload frames) =
      d3.wal_lem
      ∙ ap (λ v. append_all v (map build_wal_payload replaces))
          (d2.wal_lem ∙ ap (λ v. append_all v (map build_wal_payload cancels)) d1.wal_lem)
      ∙ sym (append_frames (append_all n.wal (map build_wal_payload orders)) cancels replaces)
      ∙ sym (append_frames n.wal orders (cancels ++ replaces)) in
    let b = d3.block_lem ∙ d2.block_lem ∙ d1.block_lem in
    let c : (k1 + k2 + k3) % 2 ^ 64 ≡ length frames % 2 ^ 64 = omega (
      arith,
      d1.count_lem,
      d2.count_lem,
      d3.count_lem,
      length-append orders (cancels ++ replaces),
      length-append cancels replaces,
    ) in
    let w' : Waiting n3.ingress [] [] [] = (d3.others_lem.0, d3.others_lem.1, d3.empty_lem) in
    Emptied-if (ltb 0 ((k1 + k2 + k3) % 2 ^ 64)) _ _
      (λ h. advance_block-Emptied n n3 frames ((k1 + k2 + k3) % 2 ^ 64) w' e b c)
      (λ h. record {
        waiting = w';
        wal_lem = e;
        block_lem = b ∙ no_frames n.block_number (length frames) ((k1 + k2 + k3) % 2 ^ 64) l c h;
      })
