-- ===== src/Matcher/Requests/Cancels.antt =====
-- matching_engine.cpp: `cancel` and `replace`.
use mmperp.Prelude.{
  ℕ, ◌≡◌, ◌≢◌, some, none, Store, true, refl, sym, subst, ap, ◌∙◌, insert, insert_self, insert_ne,
  erase, erase_self, erase_ne,
}
use mmperp.Common.Types.{Side, buy, sell, OrderId, value}
use mmperp.Matcher.Types.{OrderRecord, MarketShard, CancelResult}
use mmperp.Matcher.Books.{own_book, remove_at}
use mmperp.Matcher.Engine.{Engine, cancel, withdraw, not_cancelled, reject_order_not_found}
use mmperp.Matcher.Invariant.Steps.{withdraw-updated}
use mmperp.Matcher.Invariant.Shards.{orders-updated, own_book-updated, own_book-updated_ne}
use mmperp.Matcher.Invariant.{other}
use mmperp.Matcher.Requests.{IsSound, IsSoundEngine}
use mmperp.Matcher.Requests.Soundness.{cancel-IsSound}
use mmperp.Matcher.Requests.Served.{ranking}
use mmperp.Matcher.Requests.Rankings.{leave, ranking-remove_at}

book_orders-withdraw :
    (s : MarketShard) (k : ℕ) (m : OrderRecord)
    → IsSound s
    → s.book_orders k ≡ some m
    → (withdraw s k m).book_orders ≡ erase k s.book_orders
book_orders-withdraw s k m v o =
    ap (λ (t : MarketShard). t.book_orders) (withdraw-updated s k m v.consistent o)
    ∙ orders-updated s m.request.side _ (erase k s.book_orders)

other-ne : (side : Side) → other side ≢ side
other-ne buy e = cc
other-ne sell e = cc

-- Of a market after the cancellation of its order `m`, whose key is `k`.
pub record IsCancelled (s s' : MarketShard) (k : ℕ) (m : OrderRecord) : Type 0 where
  pub gone : s'.book_orders k ≡ none
  pub others : (j : ℕ) → j ≢ k → s'.book_orders j ≡ s.book_orders j
  pub unlinked :
      ranking (own_book m.request.side s')
      ≡ leave m.request.price k (ranking (own_book m.request.side s))
  pub other_side : own_book (other m.request.side) s' ≡ own_book (other m.request.side) s

withdraw-IsCancelled :
    (s : MarketShard) (k : ℕ) (m : OrderRecord)
    → IsSound s
    → s.book_orders k ≡ some m
    → IsCancelled s (withdraw s k m) k m
withdraw-IsCancelled s k m v o = record {
  gone = at k ∙ erase_self k s.book_orders;
  others = λ j ne. at j ∙ erase_ne k j s.book_orders ne;
  unlinked =
      ap (λ t. ranking (own_book m.request.side t)) (withdraw-updated s k m v.consistent o)
      ∙ ap ranking (
          own_book-updated s m.request.side
            (remove_at m.request.price k m (own_book m.request.side s)) (erase k s.book_orders))
      ∙ ranking-remove_at s.book_orders m.request.side m.request.price k m
          (own_book m.request.side s) (v.consistent.held k m o)
          (v.consistent.in_order m.request.side);
  other_side =
      ap (own_book (other m.request.side)) (withdraw-updated s k m v.consistent o)
      ∙ own_book-updated_ne s m.request.side (other m.request.side)
          (remove_at m.request.price k m (own_book m.request.side s)) (erase k s.book_orders)
          (other-ne m.request.side);
}
  where
    at : (j : ℕ) → (withdraw s k m).book_orders j ≡ erase k s.book_orders j
    at j = ap (λ (t : Store OrderRecord). t j) (book_orders-withdraw s k m v o)

cancel-found :
    (e : Engine) (id : OrderId) (s : MarketShard) (m : OrderRecord)
    → e id.market ≡ some s
    → s.book_orders (value id) ≡ some m
    → cancel e id
      ≡ (record { cancelled = true; reject_code = 0 }, insert id.market (withdraw s (value id) m) e)
unfolding cancel
cancel-found e id s m f o = rw (f, o) refl

cancel-missing :
    (e : Engine) (id : OrderId) (s : MarketShard)
    → e id.market ≡ some s
    → s.book_orders (value id) ≡ none
    → (cancel e id).0 ≡ not_cancelled reject_order_not_found
unfolding cancel
cancel-missing e id s f o = rw (f, o) refl

-- Cancelling an order that its market holds, in an engine whose markets are sound, reports success
-- and leaves every market sound. The market no longer holds that order and holds every other order
-- as before. The order leaves the queue of its price level, where the others keep their places, and
-- the book of the other side and the other markets are untouched. A second cancellation is refused as
-- not found.
pub cancel_twice :
    (e : Engine) (id : OrderId) (s : MarketShard) (m : OrderRecord)
    → IsSoundEngine e
    → e id.market ≡ some s
    → s.book_orders (value id) ≡ some m
    → let (result, e') = cancel e id in
      (result.cancelled ≡ true)
      × ((s' : MarketShard) × (e' id.market ≡ some s') × IsCancelled s s' (value id) m)
      × ((n : ℕ) → n ≢ id.market → e' n ≡ e n)
      × IsSoundEngine e'
      × ((cancel e' id).0 ≡ not_cancelled reject_order_not_found)
cancel_twice e id s m v f o =
    let sound = cancel-IsSound e id v in
    subst
      (λ (c : CancelResult × Engine).
        (c.0.cancelled ≡ true)
        × ((s' : MarketShard) × (c.1 id.market ≡ some s') × IsCancelled s s' (value id) m)
        × ((n : ℕ) → n ≢ id.market → c.1 n ≡ e n)
        × IsSoundEngine c.1
        × ((cancel c.1 id).0 ≡ not_cancelled reject_order_not_found))
      (sym (cancel-found e id s m f o))
      (
        refl,
        (withdraw s (value id) m, insert_self id.market (withdraw s (value id) m) e, done),
        (λ n ne. insert_ne id.market n (withdraw s (value id) m) e ne),
        subst IsSoundEngine (ap (λ (c : CancelResult × Engine). c.1) (cancel-found e id s m f o))
            sound,
        again,
      )
  where
    done : IsCancelled s (withdraw s (value id) m) (value id) m
    done = withdraw-IsCancelled s (value id) m (v id.market s f) o

    again :
        (cancel (insert id.market (withdraw s (value id) m) e) id).0
        ≡ not_cancelled reject_order_not_found
    again =
        cancel-missing (insert id.market (withdraw s (value id) m) e) id (withdraw s (value id) m)
          (insert_self id.market (withdraw s (value id) m) e) done.gone
