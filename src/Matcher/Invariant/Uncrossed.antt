-- ===== src/Matcher/Invariant/Uncrossed.antt =====
-- matching_engine.cpp: the best bid stays below the best ask.
use mmperp.Prelude.{ℕ, [], ◌≡◌, inl, inr, false, some, Store, refl, sym, ap, subst, ◌∙◌, arith}
use mmperp.Prelude.Int.{ℤ, pos, ◌<ℤ◌}
use mmperp.Common.Types.{Side, buy, sell}
use mmperp.Matcher.Types.{OrderRecord, Book, MarketShard}
use mmperp.Matcher.Books.{own_book, push_at, rest_order}
use mmperp.Matcher.Matching.{crosses, opposite, match_order}
use mmperp.Matcher.Engine.{withdraw}
use mmperp.Matcher.Invariant.{IsBook, IsConsistent, HasPrice, other}
use mmperp.Matcher.Invariant.Shards.{updated, own_book-updated, own_book-updated_ne, Side-cases}
use mmperp.Matcher.Invariant.Drained.{IsClear, consume_book-IsDrained}
use mmperp.Matcher.Invariant.Resting.{push_at-HasPrice}
use mmperp.Matcher.Invariant.Withdrawal.{remove_at-HasPrice}
use mmperp.Matcher.Invariant.Steps.{
  swept_book, swept, opposite-own, with_opposite-own, withdraw-updated,
}

-- Every bid lies below every ask.
abbrev pub IsUncrossed : MarketShard → Type 0
IsUncrossed s = (p q : ℤ) → HasPrice p s.bids → HasPrice q s.asks → p <ℤ q

-- The prices of one shard are among those of another.
abbrev pub HasFewerPrices : MarketShard → MarketShard → Type 0
HasFewerPrices s' s =
    (side : Side) (x : ℤ) → HasPrice x (own_book side s') → HasPrice x (own_book side s)

pub fewer-IsUncrossed : (s' s : MarketShard) → HasFewerPrices s' s → IsUncrossed s → IsUncrossed s'
fewer-IsUncrossed s' s fewer u p q hp hq = u p q (fewer buy p hp) (fewer sell q hq)

updated_fewer :
    (s : MarketShard) (side : Side) (book : Book) (orders : Store OrderRecord)
    → ((x : ℤ) → HasPrice x book → HasPrice x (own_book side s))
    → HasFewerPrices (updated s side book orders) s
updated_fewer s side book orders f side' x h = elim (Side-cases side' side) [
  | inl e ↦
      subst (λ a. HasPrice x (own_book a s)) (sym e)
        (f x (
          subst (HasPrice x)
            (ap (λ a. own_book a (updated s side book orders)) e
              ∙ own_book-updated s side book orders)
            h))
  | inr ne ↦ subst (HasPrice x) (own_book-updated_ne s side side' book orders ne) h
]

module _ (s : MarketShard) (taker : OrderRecord) (v : IsConsistent s) where
  pub match_order-updated :
      (match_order s taker).0
      ≡ updated s (other taker.request.side) (swept_book s taker).book (swept_book s taker).orders
  unfolding match_order
  match_order-updated = rw with_opposite-own

  pub match_order_fewer : HasFewerPrices (match_order s taker).0 s
  match_order_fewer = rw match_order-updated (
      updated_fewer s (other taker.request.side) (swept_book s taker).book
        (swept_book s taker).orders (swept s taker v).prices)

  -- An unfilled taker faces a book with no price that it crosses.
  pub match_order-IsClear :
      pos 0 <ℤ (match_order s taker).1.remaining
      → IsClear taker.request (own_book (other taker.request.side) (match_order s taker).0)
  unfolding match_order
  match_order-IsClear more =
      rw (with_opposite-own, own_book-updated)
        (consume_book-IsDrained taker.request (opposite taker.request.side s) s.book_orders taker []
          refl
          (subst (IsBook s.book_orders (other taker.request.side))
            (sym (opposite-own taker.request.side s)) (v.in_order (other taker.request.side)))
          more)

pub withdraw_fewer :
    (s : MarketShard) (k : ℕ) (m : OrderRecord)
    → IsConsistent s
    → s.book_orders k ≡ some m
    → HasFewerPrices (withdraw s k m) s
withdraw_fewer s k m v o = rw (withdraw-updated s k m v o) (
    updated_fewer s m.request.side _ _
      (remove_at-HasPrice m.request.price k m (own_book m.request.side s)))

-- A bid and an ask that do not trade with one another.
apart_buy : (limit x : ℤ) → crosses buy limit x ≡ false → limit <ℤ x
unfolding crosses
apart_buy limit x h = ground arith

apart_sell : (limit x : ℤ) → crosses sell limit x ≡ false → x <ℤ limit
unfolding crosses
apart_sell limit x h = ground arith

module _ (s : MarketShard) (key : ℕ) (r : OrderRecord) (u : IsUncrossed s) where
  rested_bid :
      ((x : ℤ) → HasPrice x s.asks → crosses buy r.request.price x ≡ false)
      → (orders : Store OrderRecord)
      → IsUncrossed
          (record s { book_orders = orders; bids = push_at buy r.request.price key r s.bids })
  rested_bid c orders p q hp hq = elim (push_at-HasPrice buy r.request.price key r s.bids p hp) [
    | inl same ↦ rw same (apart_buy r.request.price q (c q hq))
    | inr old ↦ u p q old hq
  ]

  rested_ask :
      ((x : ℤ) → HasPrice x s.bids → crosses sell r.request.price x ≡ false)
      → (orders : Store OrderRecord)
      → IsUncrossed
          (record s { book_orders = orders; asks = push_at sell r.request.price key r s.asks })
  rested_ask c orders p q hp hq = elim (push_at-HasPrice sell r.request.price key r s.asks q hq) [
    | inl same ↦ rw same (apart_sell r.request.price p (c p hp))
    | inr old ↦ u p q hp old
  ]

rested_on :
    (s : MarketShard) (key : ℕ) (r : OrderRecord) (side : Side) (orders : Store OrderRecord)
    → IsUncrossed s
    → ((x : ℤ) → HasPrice x (own_book (other side) s) → crosses side r.request.price x ≡ false)
    → IsUncrossed (updated s side (push_at side r.request.price key r (own_book side s)) orders)
rested_on s key r buy orders u c = rested_bid s key r u c orders
rested_on s key r sell orders u c = rested_ask s key r u c orders

-- Resting an order that nothing on the other side suits keeps the books apart.
pub rest_order-IsUncrossed :
    (s : MarketShard) (key : ℕ) (r : OrderRecord)
    → IsUncrossed s
    → IsClear r.request (own_book (other r.request.side) s)
    → IsUncrossed (rest_order s key r)
unfolding rest_order
rest_order-IsUncrossed s key r u c = rested_on s key r r.request.side _ u c
