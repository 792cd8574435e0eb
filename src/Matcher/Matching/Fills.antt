-- ===== src/Matcher/Matching/Fills.antt =====
-- matching_engine.cpp, `match_order`: what the fills of a matching add up to, and their prices.
use mmperp.Prelude.{
  ℕ, List, [], ◌∷◌, ◌++◌, ◌≡◌, true, some, arith, refl, ap, subst, ◌∙◌, Store, insert, erase, All,
  All-snoc,
}
use mmperp.Prelude.Int.{
  ℤ, pos, ◌+ℤ◌, ◌<ℤ◌, ◌≤ℤ◌, int_laws, min_ℤ-le_left, min_ℤ-le_right, min_ℤ_pos, +ℤ-move,
  ℤ-nonneg_sub, zero_+ℤ,
}
use mmperp.Matcher.Types.{FillEvent, OrderRecord, OrderRequest, MarketShard, refresh_display}
use mmperp.Matcher.Matching.{
  Pass, reduce, traded_with, crosses, settle, fill, trade, consume_book, match_order, opposite,
}
use mmperp.Matcher.Matching.Rule.{Statement, Keeps, taker-trade, fills-trade, consume_book_keeps}

-- The quantity that a list of fills trades.
unfoldable pub filled : List FillEvent → ℤ
filled [] = pos 0
filled (f ∷ fs) = f.quantity +ℤ filled fs

pub filled-append : (xs ys : List FillEvent) → filled (xs ++ ys) ≡ filled xs +ℤ filled ys
unfolding filled
filled-append [] ys = omega int_laws
filled-append (x ∷ xs) ys = rw (filled-append xs ys) (omega int_laws)

-- What is filled and what remains make up `total`, and nothing is overfilled.
abbrev pub Conserves : ℤ → Statement
Conserves total orders taker fills =
    (filled fills +ℤ taker.remaining ≡ total) × (pos 0 ≤ℤ taker.remaining)

pub Conserves-trade : (total : ℤ) → Keeps (Conserves total)
Conserves-trade total price key p maker w e (h, _) =
    rw (taker-trade price key p maker, fills-trade price key p maker)
      (
        rw (filled-append p.fills)
            (unfold filled in +ℤ-move (filled p.fills) p.taker.remaining traded ∙ h),
        ℤ-nonneg_sub p.taker.remaining traded (min_ℤ-le_left p.taker.remaining maker.remaining),
      )
  where
    traded : ℤ
    traded = traded_with p.taker maker

-- A fill of the order `r` trades something, for it, at a price that it crosses.
pub record IsFillOf (r : OrderRequest) (f : FillEvent) : Type 0 where
  pub positive : pos 0 <ℤ f.quantity
  pub at_limit : crosses r.side r.price f.price ≡ true
  pub for_taker : f.taker_order ≡ r.id

-- Every record of the map has something left.
abbrev pub AllPositive : Store OrderRecord → Type 0
AllPositive orders = (k : ℕ) (m : OrderRecord) → orders k ≡ some m → pos 0 <ℤ m.remaining

abbrev pub HasFillsOf : OrderRequest → Statement
HasFillsOf r orders taker fills = (taker.request ≡ r) × AllPositive orders × All (IsFillOf r) fills

pub AllPositive-settle :
    (key : ℕ) (p : Pass) (m : OrderRecord)
    → pos 0 ≤ℤ m.remaining
    → AllPositive p.orders
    → AllPositive (settle key p m).orders
unfolding settle insert erase
AllPositive-settle key p m h a k n e = ground (arith, a k n)

pub remaining-refresh_display : (r : OrderRecord) → (refresh_display r).remaining ≡ r.remaining
unfolding refresh_display
remaining-refresh_display r = ground arith

pub AllPositive-trade :
    (price : ℤ) (key : ℕ) (p : Pass) (m : OrderRecord)
    → AllPositive p.orders
    → AllPositive (trade price key p m).orders
unfolding trade
AllPositive-trade price key p m a =
    AllPositive-settle key (fill price p m).0 (fill price p m).1
      (rw (remaining-refresh_display (reduce m (traded_with p.taker m)))
        (ℤ-nonneg_sub m.remaining _ (min_ℤ-le_right p.taker.remaining m.remaining)))
      a

pub HasFillsOf-trade : (r : OrderRequest) → Keeps (HasFillsOf r)
HasFillsOf-trade r price key p maker w e (same, a, h) = (
  rw (taker-trade price key p maker) same,
  AllPositive-trade price key p maker a,
  rw (fills-trade price key p maker) (
      All-snoc (IsFillOf r) p.fills _ h (record {
        positive = min_ℤ_pos p.taker.remaining maker.remaining w.0 (a key maker e);
        at_limit = subst (λ q. crosses q.side q.price price ≡ true) same w.1;
        for_taker = ap (λ (q : OrderRequest). q.id) same;
      })),
)

-- A matching trades no more than the taker has: what its fills add up to, with what remains of the
-- taker, is what the taker came with.
pub match_order-conserves :
    (s : MarketShard) (taker : OrderRecord)
    → pos 0 ≤ℤ taker.remaining
    → let (s', taker', fills) = match_order s taker in
      (filled fills +ℤ taker'.remaining ≡ taker.remaining) × (pos 0 ≤ℤ taker'.remaining)
unfolding match_order
match_order-conserves s taker h =
    consume_book_keeps (Conserves taker.remaining) (Conserves-trade taker.remaining)
      (opposite taker.request.side s) s.book_orders taker []
      (unfold filled in zero_+ℤ taker.remaining, h)

-- The taker keeps its request, every record left in the map has something left, and each fill is a
-- fill of the taker: positive, at a price that it crosses.
pub match_order-HasFillsOf :
    (s : MarketShard) (taker : OrderRecord)
    → AllPositive s.book_orders
    → let w = consume_book (opposite taker.request.side s) s.book_orders taker [] in
      HasFillsOf taker.request w.orders w.taker w.fills
match_order-HasFillsOf s taker a =
    consume_book_keeps (HasFillsOf taker.request) (HasFillsOf-trade taker.request)
      (opposite taker.request.side s) s.book_orders taker [] (refl, a, tt)

KeepsRequest-trade : (r : OrderRequest) → Keeps (λ orders taker fills. taker.request ≡ r)
KeepsRequest-trade r price key p maker w e h = rw (taker-trade price key p maker) h

pub match_order-request :
    (s : MarketShard) (taker : OrderRecord) → (match_order s taker).1.request ≡ taker.request
unfolding match_order
match_order-request s taker =
    consume_book_keeps (λ orders t fills. t.request ≡ taker.request)
      (KeepsRequest-trade taker.request) (opposite taker.request.side s) s.book_orders taker [] refl
