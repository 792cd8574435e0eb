-- ===== src/Matcher/Requests/Placing.antt =====
-- matching_engine.cpp: placing an order keeps a market sound.
use mmperp.Prelude.{
  ℕ, ◌+◌, ◌%◌, ◌^◌, List, [], ◌≡◌, inl, inr, true, false, some, none, Option, ◌&&◌, refl, sym, ap,
  subst, arith, Bool-cases, ltb→lt, Bool,
}
use mmperp.Prelude.Int.{pos, ◌<ℤ◌, ltb_ℤ}
use mmperp.Common.Types.{Side, buy, sell, value, has_flag, post_only}
use mmperp.Matcher.Types.{
  OrderRecord, OrderRequest, OrderResult, FillEvent, MarketShard, refresh_display,
}
use mmperp.Matcher.Books.{own_book}
use mmperp.Matcher.Matching.{opposite, match_order, fillable_quantity}
use mmperp.Matcher.Matching.Rule.{request-refresh_display}
use mmperp.Matcher.Matching.Fills.{match_order-request, remaining-refresh_display}
use mmperp.Matcher.Engine.{
  rejected, reject_post_only_would_cross, reject_insufficient_liquidity, new_record, rest_remainder,
  conclude, execute, place_order, crosses_best, is_fok, is_immediate,
}
use mmperp.Matcher.Invariant.{IsBook, IsHeld, other}
use mmperp.Matcher.Invariant.Drained.{IsClear}
use mmperp.Matcher.Invariant.Steps.{match_order-IsConsistent, rest_order-IsConsistent}
use mmperp.Matcher.Invariant.Uncrossed.{
  fewer-IsUncrossed, match_order_fewer, match_order-IsClear, rest_order-IsUncrossed,
}
use mmperp.Matcher.Requests.{IsSound}

-- The counter plays no part.
pub next-IsSound : (s : MarketShard) (n : ℕ) → IsSound s → IsSound (record s { next_sequence = n })
next-IsSound s n v = record {
  consistent = record {
    in_order = λ side. next_order side;
    held = λ k m e.
        subst (IsHeld k m.request.price) (sym (own_book-next m.request.side))
          (v.consistent.held k m e);
  };
  uncrossed = v.uncrossed;
}
  where
    own_book-next : (side : Side) → own_book side (record s { next_sequence = n }) ≡ own_book side s
    own_book-next buy = refl
    own_book-next sell = refl

    next_order :
        (side : Side) → IsBook s.book_orders side (own_book side (record s { next_sequence = n }))
    next_order side = rw own_book-next (v.consistent.in_order side)

match_order-IsSound :
    (s : MarketShard) (taker : OrderRecord) → IsSound s → IsSound (match_order s taker).0
match_order-IsSound s taker v = record {
  consistent = match_order-IsConsistent s taker v.consistent;
  uncrossed =
      fewer-IsUncrossed (match_order s taker).0 s (match_order_fewer s taker v.consistent)
        v.uncrossed;
}

rest_remainder-IsSound :
    (s : MarketShard) (r : OrderRecord) (fills : List FillEvent) (o : Option OrderRecord)
    → s.book_orders (value r.request.id) ≡ o
    → IsSound s
    → pos 0 <ℤ r.remaining
    → IsClear r.request (own_book (other r.request.side) s)
    → IsSound (rest_remainder s r fills o).1
unfolding rest_remainder
rest_remainder-IsSound s r fills (some _) e v h c = v
rest_remainder-IsSound s r fills none e v h c = record {
  consistent = rest_order-IsConsistent s r v.consistent e h;
  uncrossed = rest_order-IsUncrossed s (value r.request.id) r v.uncrossed c;
}

conclude-IsSound :
    (s : MarketShard) (taker : OrderRecord) (fills : List FillEvent)
    → IsSound s
    → (pos 0 <ℤ taker.remaining → IsClear taker.request (own_book (other taker.request.side) s))
    → IsSound (conclude s taker fills).1
unfolding conclude
conclude-IsSound s taker fills v c = elim (Bool-cases (ltb_ℤ (pos 0) taker.remaining)) [
  | inr done ↦ rw done v
  | inl more ↦ elim (Bool-cases (is_immediate taker.request.tif)) [
    | inl i ↦ rw (more, i) v
    | inr g ↦
        rw (more, g)
          (rest_remainder-IsSound s (refresh_display taker) fills _
            (ap (λ (r : OrderRequest). s.book_orders (value r.id)) (request-refresh_display taker))
            v (rw (remaining-refresh_display taker) (ltb→lt _ _ more))
            (rw (request-refresh_display taker) (c (ltb→lt _ _ more))))
  ]
]

request-new_record : (r : OrderRequest) (seq : ℕ) → (new_record r seq).request ≡ r
unfolding new_record
request-new_record r seq = refl

execute-IsSound : (s : MarketShard) (r : OrderRequest) → IsSound s → IsSound (execute s r).1
unfolding execute
execute-IsSound s r v =
    conclude-IsSound (match_order s' taker).0 (match_order s' taker).1 (match_order s' taker).2
      (match_order-IsSound s' taker sound)
      (λ more.
        rw (match_order-request s' taker) (match_order-IsClear s' taker sound.consistent more))
  where
    s' : MarketShard
    s' = record s { next_sequence = (s.next_sequence + 1) % 2 ^ 64 }

    taker : OrderRecord
    taker = new_record r s.next_sequence

    sound : IsSound s'
    sound = next-IsSound s ((s.next_sequence + 1) % 2 ^ 64) v

and_true : (a b : Bool) → (a && b) ≡ true → (a ≡ true) × (b ≡ true)
and_true a b h = ground arith

-- Placing an order is refused with no change, or is the execution of the order.
pub place_order_cases :
    (P : OrderResult × MarketShard → Type 0) (s : MarketShard) (r : OrderRequest)
    → (has_flag r.flags post_only ≡ true
        → crosses_best r (opposite r.side s) ≡ true
        → P (rejected reject_post_only_would_cross [], s))
    → (is_fok r.tif ≡ true
        → ltb_ℤ (fillable_quantity s r) r.quantity ≡ true
        → P (rejected reject_insufficient_liquidity [], s))
    → ((has_flag r.flags post_only && crosses_best r (opposite r.side s)) ≡ false
        → (is_fok r.tif && ltb_ℤ (fillable_quantity s r) r.quantity) ≡ false
        → P (execute s r))
    → P (place_order s r)
unfolding place_order
place_order_cases P s r crossing scarce on =
    elim (Bool-cases (has_flag r.flags post_only && crosses_best r (opposite r.side s))) [
      | inl x ↦ rw x (let (a, b) = and_true _ _ x in crossing a b)
      | inr x ↦ elim (Bool-cases (is_fok r.tif && ltb_ℤ (fillable_quantity s r) r.quantity)) [
        | inl y ↦ rw (x, y) (let (a, b) = and_true _ _ y in scarce a b)
        | inr y ↦ rw (x, y) (on x y)
      ]
    ]

pub place_order-IsSound :
    (s : MarketShard) (r : OrderRequest) → IsSound s → IsSound (place_order s r).1
place_order-IsSound s r v =
    place_order_cases (λ p. IsSound p.1) s r (λ _ _. v) (λ _ _. v) (λ _ _. execute-IsSound s r v)
