-- ===== src/Matcher/Requests/Makers.antt =====
-- matching_engine.cpp: whose orders a request trades with, and which orders there are afterwards.
use mmperp.Prelude.{
  ℕ, ◌+◌, ◌%◌, ◌^◌, List, [], ◌∷◌, ◌++◌, ◌≡◌, ◌⊎◌, inl, inr, true, Option, none, some, Store, refl,
  sym, ap, subst, ◌∙◌, Bool-cases, map, All,
}
use mmperp.Prelude.Int.{ℤ, pos, ltb_ℤ}
use mmperp.Common.Types.{Side, value}
use mmperp.Matcher.Types.{
  OrderRecord, OrderRequest, OrderResult, FillEvent, Book, MarketShard, refresh_display,
}
use mmperp.Matcher.Books.{rest_order}
use mmperp.Matcher.Matching.{match_order, opposite}
use mmperp.Matcher.Matching.Rule.{request-refresh_display}
use mmperp.Matcher.Engine.{
  rejected, new_record, rest_remainder, conclude, execute, place_order, is_immediate,
}
use mmperp.Matcher.Invariant.{Queued, IsBook, Shrinks, other}
use mmperp.Matcher.Invariant.Stores.{insert-found}
use mmperp.Matcher.Invariant.Uncrossed.{match_order-updated}
use mmperp.Matcher.Matching.Fills.{match_order-request}
use mmperp.Matcher.Invariant.Shards.{orders-updated}
use mmperp.Matcher.Invariant.Steps.{opposite-own, swept, swept_book}
use mmperp.Matcher.Requests.{IsSound}
use mmperp.Matcher.Requests.Placing.{place_order_cases, next-IsSound}
use mmperp.Matcher.Requests.Served.{maker_of, ranking}
use mmperp.Matcher.Requests.Arrivals.{match_order-ServesFirst}

-- The key is that of an order on this side.
abbrev pub IsOrderOn : Store OrderRecord → Side → ℕ → Type 0
IsOrderOn orders side k = (m : OrderRecord) × (orders k ≡ some m) × (m.request.side ≡ side)

tag_linked :
    (orders : Store OrderRecord) (side : Side) (price : ℤ) (keys : List ℕ) (total visible : ℤ)
    (rest : List (ℤ × ℕ))
    → Queued orders side price keys total visible
    → All (λ (x : ℤ × ℕ). IsOrderOn orders side x.1) rest
    → All (λ (x : ℤ × ℕ). IsOrderOn orders side x.1) (map (λ k. (price, k)) keys ++ rest)
tag_linked orders side price [] total visible rest h r = r
tag_linked orders side price (k ∷ ks) total visible rest (m, o, l, fr, h) r =
    ((m, o, l.on_side), tag_linked orders side price ks _ _ rest h r)

ranking_linked :
    (orders : Store OrderRecord) (side : Side) (book : Book)
    → IsBook orders side book
    → All (λ (x : ℤ × ℕ). IsOrderOn orders side x.1) (ranking book)
ranking_linked orders side [] b = tt
ranking_linked orders side ((price, l) ∷ rest) (h, ne, first, b) =
    tag_linked orders side price l.queue _ _ (ranking rest) h (ranking_linked orders side rest b)

module _ {A B : Type 0} (P : B → Type 0) (g : A → B) where
  All-map_earlier : (xs : List A) (ys : List B) → All P (map g xs ++ ys) → All (λ x. P (g x)) xs
  All-map_earlier [] ys h = tt
  All-map_earlier (x ∷ xs) ys (h, hs) = (h, All-map_earlier xs ys hs)

-- The maker of a fill is an order of the book on this side.
abbrev pub IsMadeOn : Store OrderRecord → Side → FillEvent → Type 0
IsMadeOn orders side f = IsOrderOn orders side (value f.maker_order)

match_order-IsMadeOn :
    (s : MarketShard) (taker : OrderRecord)
    → IsSound s
    → All (IsMadeOn s.book_orders (other taker.request.side)) (match_order s taker).2
match_order-IsMadeOn s taker v =
    let (left, e, _) = match_order-ServesFirst s taker v.consistent in
    let side = other taker.request.side in
    All-map_earlier (λ (x : ℤ × ℕ). IsOrderOn s.book_orders side x.1) maker_of
      (match_order s taker).2 left
      (subst (All (λ (x : ℤ × ℕ). IsOrderOn s.book_orders side x.1)) e (
        ranking_linked s.book_orders side (opposite taker.request.side s)
          (rw opposite-own (v.consistent.in_order side))))

match_order-Shrinks :
    (s : MarketShard) (taker : OrderRecord)
    → IsSound s
    → Shrinks s.book_orders (match_order s taker).0.book_orders
match_order-Shrinks s taker v =
    let w = swept_book s taker in
    subst (Shrinks s.book_orders)
      (sym (
        ap (λ (x : MarketShard). x.book_orders) (match_order-updated s taker v.consistent)
        ∙ orders-updated s (other taker.request.side) w.book w.orders))
      (swept s taker v.consistent).shrinks

-- The orders afterwards are some of those before, and the request's own if it is reported to rest.
pub record IsAfter (s : MarketShard) (r : OrderRequest) (o : OrderResult) (s' : MarketShard)
    : Type 0 where
  pub is_accepted : o.resting ≡ true → o.accepted ≡ true
  pub makers : All (IsMadeOn s.book_orders (other r.side)) o.fills
  pub orders :
      (k : ℕ) (m' : OrderRecord)
      → s'.book_orders k ≡ some m'
      → ((m : OrderRecord) × (s.book_orders k ≡ some m) × (m.request ≡ m'.request))
        ⊎ ((k ≡ value r.id) × (o.resting ≡ true) × (m'.request ≡ r))

refused-IsAfter : (s : MarketShard) (r : OrderRequest) (code : ℕ) → IsAfter s r (rejected code []) s
refused-IsAfter s r code = record {
  is_accepted = λ e. cc;
  makers = tt;
  orders = λ k m e. inl (m, e, refl);
}

module _ (s : MarketShard) (r : OrderRequest) (matched : MarketShard) (fills : List FillEvent)
    (shrinks : Shrinks s.book_orders matched.book_orders)
    (made : All (IsMadeOn s.book_orders (other r.side)) fills) where
  rest_remainder-IsAfter :
      (m : OrderRecord) (o : Option OrderRecord)
      → m.request ≡ r
      → IsAfter s r (rest_remainder matched m fills o).0 (rest_remainder matched m fills o).1
  unfolding rest_remainder rest_order
  rest_remainder-IsAfter m (some x) same = record {
    is_accepted = λ e. cc;
    makers = made;
    orders = λ k n e. inl (shrinks k n e);
  }
  rest_remainder-IsAfter m none same = record {
    is_accepted = λ _. refl;
    makers = made;
    orders = λ k n e.
        elim (insert-found matched.book_orders (value m.request.id) k
          (record m { level = some m.request.price }) n
          (ap (λ (o : Store OrderRecord). o k) (sym (orders-updated matched m.request.side _ _))
            ∙ e)) [
              | inl (at, found) ↦ inr (
                at ∙ ap (λ (q : OrderRequest). value q.id) same,
                refl,
                ap (λ (q : OrderRecord). q.request) (sym found) ∙ same,
              )
              | inr (_, found) ↦ inl (shrinks k n found)
            ];
  }

  conclude-IsAfter :
      (taker : OrderRecord)
      → taker.request ≡ r
      → IsAfter s r (conclude matched taker fills).0 (conclude matched taker fills).1
  unfolding conclude
  conclude-IsAfter taker same = elim (Bool-cases (ltb_ℤ (pos 0) taker.remaining)) [
    | inr done ↦
        rw done
          (record { is_accepted = λ e. cc; makers = made; orders = λ k n e. inl (shrinks k n e) })
    | inl more ↦ elim (Bool-cases (is_immediate taker.request.tif)) [
      | inl i ↦
          rw (more, i)
            (record { is_accepted = λ e. cc; makers = made; orders = λ k n e. inl (shrinks k n e) })
      | inr g ↦
          rw (more, g)
            (rest_remainder-IsAfter (refresh_display taker) _
              (request-refresh_display taker ∙ same))
    ]
  ]

execute-IsAfter :
    (s : MarketShard) (r : OrderRequest) → IsSound s → IsAfter s r (execute s r).0 (execute s r).1
unfolding execute new_record
execute-IsAfter s r v =
    let s' = record s { next_sequence = (s.next_sequence + 1) % 2 ^ 64 } in
    let taker = new_record r s.next_sequence in
    let v' = next-IsSound s ((s.next_sequence + 1) % 2 ^ 64) v in
    conclude-IsAfter s r (match_order s' taker).0 (match_order s' taker).2
      (match_order-Shrinks s' taker v') (match_order-IsMadeOn s' taker v') (match_order s' taker).1
      (match_order-request s' taker)

-- Placing an order in a sound shard.
pub place_order-IsAfter :
    (s : MarketShard) (r : OrderRequest)
    → IsSound s
    → IsAfter s r (place_order s r).0 (place_order s r).1
place_order-IsAfter s r v =
    place_order_cases (λ p. IsAfter s r p.0 p.1) s r (λ _ _. refused-IsAfter s r _)
      (λ _ _. refused-IsAfter s r _) (λ _ _. execute-IsAfter s r v)
