-- ===== src/Matcher/Invariant/Steps.antt =====
-- matching_engine.cpp: the steps of a request keep a shard consistent.
use mmperp.Prelude.{
  ℕ, List, [], ◌∷◌, ◌≡◌, inl, inr, some, none, Store, refl, sym, ap, subst, ◌∙◌, erase, insert,
}
use mmperp.Prelude.Int.{ℤ, pos, ◌<ℤ◌}
use mmperp.Common.Types.{Side, buy, sell, value}
use mmperp.Matcher.Types.{OrderRecord, OrderRequest, Book, MarketShard}
use mmperp.Matcher.Books.{own_book, with_own_book, rest_order, push_at, remove_at}
use mmperp.Matcher.Matching.{opposite, with_opposite, match_order, consume_book, Sweep}
use mmperp.Matcher.Engine.{withdraw}
use mmperp.Matcher.Invariant.{
  IsLinked, IsLevel, IsBook, IsHeld, IsConsistent, IsCoveredBy, Queued, HasKey, other,
}
use mmperp.Matcher.Invariant.Stores.{some_inj, erase-found, insert-found, erase-elsewhere}
use mmperp.Matcher.Invariant.Sweeps.{IsSwept, consume_book-IsSwept, IsHeld-HasPrice}
use mmperp.Matcher.Invariant.Resting.{push_at-IsBook, push_at_holds, push_at_keeps, rested-SameAt}
use mmperp.Matcher.Invariant.Withdrawal.{remove_at-IsBook, remove_at_keeps}
use mmperp.Matcher.Invariant.Shards.{Fits, updated, updated-IsConsistent}

pub opposite-own : (side : Side) (s : MarketShard) → opposite side s ≡ own_book (other side) s
opposite-own buy s = refl
opposite-own sell s = refl

pub with_opposite-own :
    (side : Side) (b : Book) (s : MarketShard) (o : Store OrderRecord)
    → with_opposite side b (record s { book_orders = o }) ≡ updated s (other side) b o
with_opposite-own buy b s o = refl
with_opposite-own sell b s o = refl

-- What the loop over the other side's book leaves.
abbrev pub swept_book : MarketShard → OrderRecord → Sweep
swept_book s taker = consume_book (opposite taker.request.side s) s.book_orders taker []

module _ (s : MarketShard) (taker : OrderRecord) (v : IsConsistent s) where
  pub swept :
      IsSwept
        (other taker.request.side)
        (own_book (other taker.request.side) s)
        s.book_orders
        (swept_book s taker)
  swept = rw opposite-own (
      consume_book-IsSwept (other taker.request.side) (own_book (other taker.request.side) s)
        s.book_orders taker [] (v.in_order (other taker.request.side)))

  book_covered : (side : Side) → IsCoveredBy side (own_book side s) s.book_orders (own_book side s)
  book_covered side k m e at =
      subst (λ x. IsHeld k m.request.price (own_book x s)) at.0 (v.held k m e)

  swept-Fits :
      Fits s (other taker.request.side) (swept_book s taker).book (swept_book s taker).orders
  swept-Fits = record {
    in_order = swept.in_order;
    other_side = λ side' x ne k m e at. swept.outside k m e (λ r. ne (sym at.0 ∙ r.0));
    holds = λ k m e at.
        let (n, o, q) = swept.shrinks k m e in
        swept.covered (book_covered (other taker.request.side)) k m e (
          at,
          IsHeld-HasPrice k m.request.price (own_book (other taker.request.side) s) (
              subst (λ x. IsHeld k m.request.price (own_book x s)) at
                (subst (λ (r : OrderRequest). IsHeld k r.price (own_book r.side s)) q
                  (v.held k n o))),
        );
    no_other = λ k m e _. swept.shrinks k m e;
  }

  -- Matching keeps a shard consistent.
  pub match_order-IsConsistent : IsConsistent (match_order s taker).0
  unfolding match_order
  match_order-IsConsistent = rw with_opposite-own (
      updated-IsConsistent s (other taker.request.side) (swept_book s taker).book
        (swept_book s taker).orders v swept-Fits)

-- Resting an order whose key is not in the map.
module _ (s : MarketShard) (r : OrderRecord) (v : IsConsistent s)
    (new : s.book_orders (value r.request.id) ≡ none) (some_left : pos 0 <ℤ r.remaining) where
  abbrev own_key : ℕ
  own_key = value r.request.id

  abbrev own_side : Side
  own_side = r.request.side

  abbrev own_price : ℤ
  own_price = r.request.price

  abbrev stored : OrderRecord
  stored = record r { level = some own_price }

  linked : IsLinked own_side own_price own_key stored
  linked = record {
    on_side = refl;
    at_price = refl;
    in_level = refl;
    has_key = refl;
    positive = some_left;
  }

  rested-Fits :
      Fits s own_side
        (push_at own_side own_price own_key r (own_book own_side s))
        (insert own_key stored s.book_orders)
  rested-Fits = record {
    in_order =
        push_at-IsBook s.book_orders own_side own_price own_key r stored new linked refl refl
          (own_book own_side s) (v.in_order own_side);
    other_side = λ side' x _.
        rested-SameAt s.book_orders own_side own_price own_key r stored new linked refl refl side'
          x;
    holds = λ k m e at. elim (insert-found s.book_orders own_key k stored m e) [
      | inl (same, q) ↦ rw same (
          subst
            (λ (n : OrderRecord).
              IsHeld own_key n.request.price
                (push_at own_side own_price own_key r (own_book own_side s)))
            q
            (push_at_holds s.book_orders own_side own_price own_key r stored new linked refl refl
              (own_book own_side s)))
      | inr (_, o) ↦
          push_at_keeps s.book_orders own_side own_price own_key r stored new linked refl refl
            (own_book own_side s) k m.request.price
            (subst (λ x. IsHeld k m.request.price (own_book x s)) at (v.held k m o))
    ];
    no_other = λ k m e ne. elim (insert-found s.book_orders own_key k stored m e) [
      | inl (same, q) ↦ absurd (ne (ap (λ (n : OrderRecord). n.request.side) (sym q)))
      | inr (_, o) ↦ (m, o, refl)
    ];
  }

  pub rest_order-IsConsistent : IsConsistent (rest_order s own_key r)
  unfolding rest_order
  rest_order-IsConsistent =
      updated-IsConsistent s own_side (push_at own_side own_price own_key r (own_book own_side s))
        (insert own_key stored s.book_orders) v rested-Fits

-- A record that a book holds is linked there.
found_in_queue :
    (orders : Store OrderRecord) (side : Side) (price : ℤ) (k : ℕ) (m : OrderRecord) (keys : List ℕ)
    (t q : ℤ)
    → orders k ≡ some m
    → HasKey k keys
    → Queued orders side price keys t q
    → IsLinked side price k m
found_in_queue orders side price k m [] t q o h b = elim h [ ]
found_in_queue orders side price k m (j ∷ ks) t q o (inl e) (n, f, l, _, b) =
    rw e (subst (IsLinked side price j) (some_inj (sym f ∙ ap orders (sym e) ∙ o)) l)
found_in_queue orders side price k m (j ∷ ks) t q o (inr h) (n, f, l, _, b) =
    found_in_queue orders side price k m ks _ _ o h b

held-IsLinked :
    (orders : Store OrderRecord) (side : Side) (price : ℤ) (k : ℕ) (m : OrderRecord) (book : Book)
    → orders k ≡ some m
    → IsHeld k price book
    → IsBook orders side book
    → IsLinked side price k m
held-IsLinked orders side price k m [] o h b = elim h [ ]
held-IsLinked orders side price k m ((p, l) ∷ rest) o (inl h) b =
    found_in_queue orders side price k m l.queue l.total_qty l.visible_qty o h.1
      (subst (λ x. IsLevel orders side x l) h.0 b.0)
held-IsLinked orders side price k m ((p, l) ∷ rest) o (inr h) b =
    held-IsLinked orders side price k m rest o h b.3

-- Every record of a consistent shard is linked into its own level.
pub IsConsistent-IsLinked :
    (s : MarketShard) (k : ℕ) (m : OrderRecord)
    → IsConsistent s
    → s.book_orders k ≡ some m
    → IsLinked m.request.side m.request.price k m
IsConsistent-IsLinked s k m v o =
    held-IsLinked s.book_orders m.request.side m.request.price k m (own_book m.request.side s) o
      (v.held k m o) (v.in_order m.request.side)

with_own_book-updated :
    (s : MarketShard) (side : Side) (b : Book) (k : ℕ)
    → (let s' = with_own_book side b s in record s' { book_orders = erase k s'.book_orders })
      ≡ updated s side b (erase k s.book_orders)
with_own_book-updated s buy b k = refl
with_own_book-updated s sell b k = refl

-- Taking out an order of the map.
module _ (s : MarketShard) (k : ℕ) (m : OrderRecord) (v : IsConsistent s)
    (o : s.book_orders k ≡ some m) where
  withdrawn-Fits :
      Fits s m.request.side
        (remove_at m.request.price k m (own_book m.request.side s))
        (erase k s.book_orders)
  withdrawn-Fits = record {
    in_order =
        remove_at-IsBook s.book_orders m.request.side m.request.price k m o (refl, refl)
          (own_book m.request.side s) (v.held k m o) (v.in_order m.request.side);
    other_side = λ side' x ne j n e at.
        erase-elsewhere s.book_orders k m.request.side m.request.price m o (refl, refl) j n e
          (λ r. ne (sym at.0 ∙ r.0));
    holds = λ j n e at.
        let (ne, f) = erase-found s.book_orders k j n e in
        remove_at_keeps m.request.price k m (own_book m.request.side s) j n.request.price ne
          (subst (λ x. IsHeld j n.request.price (own_book x s)) at (v.held j n f));
    no_other = λ j n e _. (n, (erase-found s.book_orders k j n e).1, refl);
  }

  pub withdraw-updated :
      withdraw s k m
      ≡ updated s m.request.side
          (remove_at m.request.price k m (own_book m.request.side s))
          (erase k s.book_orders)
  unfolding withdraw
  withdraw-updated =
      rw (IsConsistent-IsLinked s k m v o).in_level (with_own_book-updated s m.request.side _ k)

  pub withdraw-IsConsistent : IsConsistent (withdraw s k m)
  withdraw-IsConsistent = rw withdraw-updated (
      updated-IsConsistent s m.request.side
        (remove_at m.request.price k m (own_book m.request.side s)) (erase k s.book_orders) v
        withdrawn-Fits)
