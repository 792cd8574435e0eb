-- ===== src/Matcher/Requests/Conditions.antt =====
-- matching_engine.cpp: fill-or-kill and post-only orders.
use mmperp.Prelude.{
  ◌+◌, ◌%◌, ◌^◌, List, [], ◌∷◌, ◌≡◌, ◌⊎◌, inl, inr, true, false, ◌&&◌, refl, sym, ap, ◌∙◌,
  Bool-cases, arith, Bool, Option, some, none,
}
use mmperp.Prelude.Int.{ℤ, pos, ◌+ℤ◌, ◌<ℤ◌, ◌≤ℤ◌, ltb_ℤ, int_laws}
use mmperp.Common.Types.{Side, buy, sell, TimeInForce, fok, has_flag, post_only}
use mmperp.Matcher.Types.{
  OrderRecord, OrderRequest, OrderResult, MarketShard, FillEvent, Book, refresh_display,
}
use mmperp.Matcher.Matching.{match_order, opposite, consume_book, fillable_quantity, stop_at, Sweep}
use mmperp.Matcher.Matching.Fills.{filled}
use mmperp.Matcher.Matching.Rule.{consume_book_cases}
use mmperp.Matcher.Engine.{
  new_record, conclude, execute, place_order, crosses_best, is_fok, rest_remainder, is_immediate,
}
use mmperp.Matcher.Invariant.{other}
use mmperp.Matcher.Invariant.Steps.{opposite-own}
use mmperp.Matcher.Invariant.Fillable.{consume_book-fills}
use mmperp.Matcher.Invariant.Drained.{consume_book-nil}
use mmperp.Matcher.Requests.{IsSound}
use mmperp.Matcher.Requests.Placing.{place_order_cases}
use mmperp.Matcher.Requests.Reports.{matched, AllPositive-of_sound}

-- The shard with its counter advanced, as the matching sees it.
abbrev counted : MarketShard → MarketShard
counted s = record s { next_sequence = (s.next_sequence + 1) % 2 ^ 64 }

opposite-counted : (side : Side) (s : MarketShard) → opposite side (counted s) ≡ opposite side s
opposite-counted buy s = refl
opposite-counted sell s = refl

conclude_filled :
    (s : MarketShard) (taker : OrderRecord) (fills : List FillEvent)
    → taker.remaining ≡ pos 0
    → ((conclude s taker fills).0.fully_filled ≡ true) × ((conclude s taker fills).0.fills ≡ fills)
unfolding conclude
conclude_filled s taker fills h = rw h (refl, refl)

all_of : (f t q : ℤ) → t ≡ pos 0 → f +ℤ t ≡ q → f ≡ q
all_of f t q e h = sym (plus_zero f t e) ∙ h
  where
    plus_zero : (x y : ℤ) → y ≡ pos 0 → x +ℤ y ≡ x
    plus_zero x y p = rw p (omega int_laws)

abbrev pub IsAllOrNothing : OrderRequest → MarketShard → OrderResult × MarketShard → Type 0
IsAllOrNothing r s (o, s') =
    ((o.fully_filled ≡ true) × (filled o.fills ≡ r.quantity))
    ⊎ ((o.accepted ≡ false) × (o.fills ≡ []) × (s' ≡ s))

module _ (s : MarketShard) (r : OrderRequest) (v : IsSound s)
    (some_wanted : pos 0 <ℤ r.quantity) where
  fillable_filled :
      r.quantity ≤ℤ fillable_quantity s r
      → (match_order (counted s) (new_record r s.next_sequence)).1.remaining ≡ pos 0
  unfolding match_order new_record fillable_quantity
  fillable_filled h = rw opposite-counted (
      consume_book-fills r (pos 0) (opposite r.side s) s.book_orders (new_record r s.next_sequence)
        [] (rw opposite-own (v.consistent.in_order (other r.side)))
        (refl, omega arith, omega int_laws, h))

  execute_all :
      r.quantity ≤ℤ fillable_quantity s r
      → ((execute s r).0.fully_filled ≡ true) × (filled (execute s r).0.fills ≡ r.quantity)
  unfolding execute
  execute_all h =
      let taker = new_record r s.next_sequence in
      let m = matched (counted s) r s.next_sequence (AllPositive-of_sound s v) (omega arith) in
      let w = match_order (counted s) taker in
      let (full, fills) = conclude_filled w.0 w.1 w.2 (fillable_filled h) in
      (full, ap filled fills ∙ all_of _ _ _ (fillable_filled h) m.sum)

not_scarce : (t : TimeInForce) (a q : ℤ) → t ≡ fok → (is_fok t && ltb_ℤ a q) ≡ false → q ≤ℤ a
not_scarce t a q e h = at_least (rw e at h)
  where
    at_least : ltb_ℤ a q ≡ false → q ≤ℤ a
    at_least k = ground arith

-- A fill-or-kill order of positive quantity in a sound market is filled in full, or it is refused
-- with no fill and the market is as it was.
pub place_order-fok :
    (s : MarketShard) (r : OrderRequest)
    → IsSound s
    → pos 0 <ℤ r.quantity
    → r.tif ≡ fok
    → IsAllOrNothing r s (place_order s r)
place_order-fok s r v h e =
    place_order_cases (IsAllOrNothing r s) s r (λ _ _. inr (refl, refl, refl))
      (λ _ _. inr (refl, refl, refl))
      (λ _ y. inl (execute_all s r v h (not_scarce r.tif (fillable_quantity s r) r.quantity e y)))

true≢false : ¬ (true ≡ false)
true≢false h = cc

-- A book whose best level does not cross is left alone.
consume_book_not_crossed :
    (r : OrderRequest) (book : Book) (s : MarketShard) (taker : OrderRecord)
    → taker.request ≡ r
    → crosses_best r book ≡ false
    → consume_book book s.book_orders taker [] ≡ stop_at book s.book_orders taker []
unfolding crosses_best
consume_book_not_crossed r [] s taker e h = consume_book-nil s.book_orders taker []
consume_book_not_crossed r ((price, level) ∷ rest) s taker e h =
    consume_book_cases (λ w. w ≡ stop_at ((price, level) ∷ rest) s.book_orders taker []) price level
      rest s.book_orders taker [] (λ _. refl) (λ w. absurd (true≢false (sym w.1 ∙ rw e h)))

fills-rest_remainder :
    (s : MarketShard) (m : OrderRecord) (fills : List FillEvent) (o : Option OrderRecord)
    → (rest_remainder s m fills o).0.fills ≡ fills
unfolding rest_remainder
fills-rest_remainder s m fills none = refl
fills-rest_remainder s m fills (some _) = refl

pub fills-conclude :
    (s : MarketShard) (taker : OrderRecord) (fills : List FillEvent)
    → (conclude s taker fills).0.fills ≡ fills
unfolding conclude
fills-conclude s taker fills = elim (Bool-cases (ltb_ℤ (pos 0) taker.remaining)) [
  | inr done ↦ rw done refl
  | inl more ↦ elim (Bool-cases (is_immediate taker.request.tif)) [
    | inl i ↦ rw (more, i) refl
    | inr g ↦ rw (more, g) (fills-rest_remainder s (refresh_display taker) fills _)
  ]
]

match_order_not_crossed :
    (s : MarketShard) (r : OrderRequest)
    → crosses_best r (opposite r.side s) ≡ false
    → (match_order (counted s) (new_record r s.next_sequence)).2 ≡ []
unfolding match_order new_record
match_order_not_crossed s r h = rw opposite-counted (
    ap (λ (w : Sweep). w.fills)
      (consume_book_not_crossed r (opposite r.side s) (counted s) (new_record r s.next_sequence)
        refl h))

execute_not_crossed :
    (s : MarketShard) (r : OrderRequest)
    → crosses_best r (opposite r.side s) ≡ false
    → (execute s r).0.fills ≡ []
unfolding execute
execute_not_crossed s r h =
    let w = match_order (counted s) (new_record r s.next_sequence) in
    fills-conclude w.0 w.1 w.2 ∙ match_order_not_crossed s r h

not_crossing : (f c : Bool) → f ≡ true → (f && c) ≡ false → c ≡ false
not_crossing f c e h = ground arith

-- A post-only order never trades, whatever the market and the order.
pub place_order-post_only :
    (s : MarketShard) (r : OrderRequest)
    → has_flag r.flags post_only ≡ true
    → (place_order s r).0.fills ≡ []
place_order-post_only s r e =
    place_order_cases (λ p. p.0.fills ≡ []) s r (λ _ _. refl) (λ _ _. refl)
      (λ x _. execute_not_crossed s r (not_crossing _ _ e x))
