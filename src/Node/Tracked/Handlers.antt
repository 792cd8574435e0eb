-- ===== src/Node/Tracked/Handlers.antt =====
-- apps/tradecored/src/main.cpp: the handler of a new order keeps the contexts of resting orders, and books
-- both sides of each fill.
use mmperp.Prelude.{
  ℕ, ◌≡◌, inl, inr, refl, sym, subst, Bool, true, false, ◌&&◌, not, Option, none, some, List, [],
  ◌∷◌, insert, All, if◌then◌else◌, Bool-cases,
}
use mmperp.Prelude.Int.{ℤ, pos, leb_ℤ}
use mmperp.Common.Types.{value, has_flag, iceberg}
use mmperp.Ingress.{Frame}
use mmperp.Ingress.Messages.{NewOrder, decode_new_order}
use mmperp.Matcher.Types.{OrderRequest, FillEvent, MarketShard}
use mmperp.Matcher.Engine.{Engine, ensure_market, place_order, submit, bad_display}
use mmperp.Matcher.Requests.{IsSoundEngine}
use mmperp.Matcher.Requests.Soundness.{or_new-IsSound}
use mmperp.Matcher.Requests.Makers.{place_order-IsAfter}
use mmperp.Risk.Summary.{evaluate_order}
use mmperp.Node.Fills.{RestingOrderContext, Node, log_frame, process_fill, process_fills}
use mmperp.Node.Orders.{
  order_id_of, intent_of, request_of, is_accepted, taker_of, book_order, place_new_order,
  take_new_order, handle_new_order, track,
}
use mmperp.Node.Positions.{net, IsBooked, process_fills-net}
use mmperp.Node.Tracked.{
  AllKnown, IsTracked, or_new-AllKnown, insert-IsTracked, tracked_if, tracked, after-AllKnown,
  makers-IsBooked,
}

-- The contexts are in order afterwards, and each market's sum of positions is what it was.
pub record IsSettled (n n' : Node) : Type 0 where
  pub market_lem : n'.default_market ≡ n.default_market
  pub tracks : IsTracked n.default_market n'.matcher n'.resting_orders
  pub net_lem : (j : ℕ) → net j n'.risk.accounts ≡ net j n.risk.accounts

abbrev pub IsInOrder : Node → Type 0
IsInOrder n = IsTracked n.default_market n.matcher n.resting_orders

pub refl-IsSettled : (n : Node) → IsInOrder n → IsSettled n n
refl-IsSettled n t = record { market_lem = refl; tracks = t; net_lem = λ j. refl }

pub Settled-if :
    (n : Node) (b : Bool) (x y : Node)
    → IsSettled n x
    → IsSettled n y
    → IsSettled n (if b then x else y)
Settled-if n true x y h k = h
Settled-if n false x y h k = k

-- What booking leaves alone.
record IsFixed (n n' : Node) : Type 0 where
  market_lem : n'.default_market ≡ n.default_market
  matcher_lem : n'.matcher ≡ n.matcher
  resting_lem : n'.resting_orders ≡ n.resting_orders

process_fills-IsFixed :
    (n : Node) (c : RestingOrderContext) (offset : ℕ) (t : ℤ) (fills : List FillEvent)
    → IsFixed n (process_fills n c offset t fills)
unfolding process_fills process_fill
process_fills-IsFixed n c offset t [] = record {
  market_lem = refl;
  matcher_lem = refl;
  resting_lem = refl;
}
process_fills-IsFixed n c offset t (fill ∷ fills) =
    let h = process_fills-IsFixed (process_fill n c offset t fill) c offset t fills in
    record { market_lem = h.market_lem; matcher_lem = h.matcher_lem; resting_lem = h.resting_lem }

-- A result is booked.
pub booked-IsSettled :
    (n : Node) (e : Engine) (c : RestingOrderContext) (offset : ℕ) (t : ℤ) (fills : List FillEvent)
    (accepted resting : Bool) (key : ℕ)
    → All (IsBooked n.resting_orders c) fills
    → IsTracked n.default_market e (tracked_if accepted resting key c n.resting_orders)
    → let n1 : Node = record n { matcher = e } in
      let n' = process_fills n1 c offset t fills in
      IsSettled n (
        if not accepted
        then n1
        else record n' { resting_orders = track resting key c n'.resting_orders })
booked-IsSettled n e c offset t fills false resting key h tracks = record {
  market_lem = refl;
  tracks = tracks;
  net_lem = λ j. refl;
}
booked-IsSettled n e c offset t fills true resting key h tracks =
    let n1 : Node = record n { matcher = e } in
    let fixed = process_fills-IsFixed n1 c offset t fills in
    record {
      market_lem = fixed.market_lem;
      tracks =
          subst
            (λ x.
              IsTracked n.default_market x
                (track resting key c (process_fills n1 c offset t fills).resting_orders))
            (sym fixed.matcher_lem)
            (subst (λ x. IsTracked n.default_market e (track resting key c x))
              (sym fixed.resting_lem) tracks);
      net_lem = λ j. process_fills-net n1 c offset t fills j h;
    }

-- What `submit` returns, with what it leaves.
module _ (n : Node) (r : OrderRequest) (c : RestingOrderContext) (t : IsInOrder n)
    (sound : IsSoundEngine n.matcher) (at : r.id.market ≡ n.default_market)
    (account : c.account ≡ r.account) (market : c.market ≡ n.default_market)
    (side : c.side ≡ r.side)
    (unused : (ensure_market r.id.market n.matcher).book_orders (value r.id) ≡ none) where
  submit-IsTracked :
      All (IsBooked n.resting_orders c) (submit n.matcher r).0.fills
      × IsTracked n.default_market
          (submit n.matcher r).1
          (tracked (submit n.matcher r).0 (value r.id) c n.resting_orders)
  unfolding submit
  submit-IsTracked = elim (Bool-cases (leb_ℤ r.quantity (pos 0))) [
    | inl bad ↦ rw bad (tt, t)
    | inr good ↦ elim (Bool-cases (has_flag r.flags iceberg && bad_display r)) [
      | inl bad ↦ rw (good, bad) (tt, t)
      | inr fine ↦
          let e = n.matcher in
          let s = ensure_market r.id.market e in
          let d = n.default_market in
          let all = or_new-AllKnown d n.resting_orders (e r.id.market) (
            subst (λ i. (s : MarketShard) → e i ≡ some s → AllKnown d n.resting_orders s) (sym at)
              t.known) in
          let after =
            place_order-IsAfter s r (or_new-IsSound (e r.id.market) (sound r.id.market)) in
          rw (good, fine)
            (
              makers-IsBooked d n.resting_orders s r c account market side all unused
                  (place_order s r).0.fills after.makers,
              subst
                  (λ i.
                    IsTracked d (insert i (place_order s r).1 e)
                      (tracked (place_order s r).0 (value r.id) c n.resting_orders))
                  (sym at)
                  (insert-IsTracked d e n.resting_orders _ (place_order s r).1 t (
                    after-AllKnown d n.resting_orders s r c account market side all unused
                      (place_order s r).0 (place_order s r).1 after)),
            )
    ]
  ]

take_new_order-IsSettled :
    (n : Node) (f : Frame) (offset : ℕ) (order : Option NewOrder)
    → IsInOrder n
    → IsSoundEngine n.matcher
    → (ensure_market n.default_market n.matcher).book_orders (value (order_id_of n f)) ≡ none
    → IsSettled n (take_new_order n f offset order)
unfolding take_new_order place_new_order book_order request_of order_id_of
take_new_order-IsSettled n f offset none t sound unused = refl-IsSettled n t
take_new_order-IsSettled n f offset (some order) t sound unused =
    let r = request_of n f order in
    let (o, e) = submit n.matcher r in
    let c = taker_of n f order in
    let (makers, tracks) = submit-IsTracked n r c t sound refl refl refl refl unused in
    Settled-if n (is_accepted (evaluate_order n.risk (intent_of n f order)).decision) _ n
      (booked-IsSettled n e c offset f.header.received_time_ns o.fills o.accepted o.resting
        (value r.id) makers tracks)
      (refl-IsSettled n t)

pub handle_new_order-IsSettled :
    (n : Node) (f : Frame)
    → IsInOrder n
    → IsSoundEngine n.matcher
    → (ensure_market n.default_market n.matcher).book_orders (value (order_id_of n f)) ≡ none
    → IsSettled n (handle_new_order n f)
unfolding handle_new_order log_frame order_id_of
handle_new_order-IsSettled n f t sound unused =
    let (offset, n') = log_frame n f in
    let h = take_new_order-IsSettled n' f offset (decode_new_order f.payload) t sound unused in
    record { market_lem = h.market_lem; tracks = h.tracks; net_lem = h.net_lem }
