-- ===== src/Matcher/Requests/Reports.antt =====
-- matching_engine.cpp: what the result of `submit` says of the trades and of the order.
use mmperp.Prelude.{
  ℕ, ◌+◌, ◌%◌, ◌^◌, List, [], ◌≡◌, inl, inr, true, false, some, none, Option, Store, ◌&&◌, refl,
  sym, ap, subst, ◌∙◌, Bool-cases, insert_self, All, arith,
}
use mmperp.Prelude.Int.{ℤ, pos, ◌+ℤ◌, ◌≤ℤ◌, ltb_ℤ, leb_ℤ, int_laws}
use mmperp.Common.Types.{value, has_flag, iceberg}
use mmperp.Matcher.Types.{
  OrderRecord, OrderRequest, OrderResult, MarketShard, FillEvent, refresh_display,
}
use mmperp.Matcher.Books.{rest_order}
use mmperp.Matcher.Matching.{match_order}
use mmperp.Matcher.Matching.Fills.{
  filled, IsFillOf, AllPositive, match_order-conserves, match_order-HasFillsOf,
  remaining-refresh_display,
}
use mmperp.Matcher.Matching.Rule.{request-refresh_display}
use mmperp.Matcher.Engine.{
  Engine, rejected, reject_post_only_would_cross, reject_insufficient_liquidity,
  reject_duplicate_order_id, new_record, rest_remainder, conclude, execute, place_order,
  ensure_market, submit, bad_display, is_immediate,
}
use mmperp.Matcher.Invariant.Steps.{IsConsistent-IsLinked}
use mmperp.Matcher.Invariant.Shards.{orders-updated}
use mmperp.Matcher.Requests.{IsSound, IsSoundEngine}
use mmperp.Matcher.Requests.Placing.{place_order_cases}
use mmperp.Matcher.Requests.Soundness.{or_new-IsSound}

-- What the result `o` and the map of orders afterwards say of the request `r`.
pub record IsReportOf (r : OrderRequest) (o : OrderResult) (s : MarketShard) : Type 0 where
  pub fills_of : All (IsFillOf r) o.fills
  pub no_more : filled o.fills ≤ℤ r.quantity
  pub all_filled : o.fully_filled ≡ true → filled o.fills ≡ r.quantity
  pub rest_rests :
      o.resting ≡ true
      → (m : OrderRecord) × (s.book_orders (value r.id) ≡ some m)
        × (m.request ≡ r)
        × (filled o.fills +ℤ m.remaining ≡ r.quantity)

sum_le : (a b c : ℤ) → a +ℤ b ≡ c → pos 0 ≤ℤ b → a ≤ℤ c
sum_le a b c e h = subst (λ x. a ≤ℤ x) e (grows a b h)
  where
    grows : (x y : ℤ) → pos 0 ≤ℤ y → x ≤ℤ x +ℤ y
    grows x y k = omega int_laws

sum_zero : (a b c : ℤ) → a +ℤ b ≡ c → pos 0 ≤ℤ b → ltb_ℤ (pos 0) b ≡ false → a ≡ c
sum_zero a b c e h k = sym (plus_zero a b (nothing b h k)) ∙ e
  where
    nothing : (x : ℤ) → pos 0 ≤ℤ x → ltb_ℤ (pos 0) x ≡ false → x ≡ pos 0
    nothing x p q = ground arith

    plus_zero : (x y : ℤ) → y ≡ pos 0 → x +ℤ y ≡ x
    plus_zero x y p = rw p (omega int_laws)

-- The taker as the matching leaves it, of the request `r`.
pub record IsMatched (r : OrderRequest) (taker : OrderRecord) (fills : List FillEvent)
    : Type 0 where
  pub same : taker.request ≡ r
  pub sum : filled fills +ℤ taker.remaining ≡ r.quantity
  pub nonneg : pos 0 ≤ℤ taker.remaining
  pub fills_of : All (IsFillOf r) fills

book_orders-rest_order :
    (s : MarketShard) (key : ℕ) (m : OrderRecord)
    → (rest_order s key m).book_orders key ≡ some (record m { level = some m.request.price })
unfolding rest_order
book_orders-rest_order s key m =
    ap (λ (o : Store OrderRecord). o key) (orders-updated s m.request.side _ _)
    ∙ insert_self key _ s.book_orders

module _ (r : OrderRequest) (s : MarketShard) (taker : OrderRecord) (fills : List FillEvent)
    (t : IsMatched r taker fills) where
  unfilled-IsReportOf : (code : ℕ) → IsReportOf r (rejected code fills) s
  unfilled-IsReportOf code = record {
    fills_of = t.fills_of;
    no_more = sum_le _ _ _ t.sum t.nonneg;
    all_filled = λ e. cc;
    rest_rests = λ e. cc;
  }

  rest_remainder-IsReportOf :
      (m : OrderRecord)
      → m.request ≡ r
      → m.remaining ≡ taker.remaining
      → (o : Option OrderRecord) → let (res, s') = rest_remainder s m fills o in IsReportOf r res s'
  unfolding rest_remainder
  rest_remainder-IsReportOf m same rem (some _) = unfilled-IsReportOf reject_duplicate_order_id
  rest_remainder-IsReportOf m same rem none = record {
    fills_of = t.fills_of;
    no_more = sum_le _ _ _ t.sum t.nonneg;
    all_filled = λ e. cc;
    rest_rests = λ _. (
      record m { level = some m.request.price },
      subst
          (λ k.
            (rest_order s (value m.request.id) m).book_orders k
            ≡ some (record m { level = some m.request.price }))
          (ap (λ (q : OrderRequest). value q.id) same)
          (book_orders-rest_order s (value m.request.id) m),
      same,
      rw rem t.sum,
    );
  }

  conclude-IsReportOf : let (res, s') = conclude s taker fills in IsReportOf r res s'
  unfolding conclude
  conclude-IsReportOf = elim (Bool-cases (ltb_ℤ (pos 0) taker.remaining)) [
    | inr done ↦ rw done (record {
      fills_of = t.fills_of;
      no_more = sum_le _ _ _ t.sum t.nonneg;
      all_filled = λ _. sum_zero _ _ _ t.sum t.nonneg done;
      rest_rests = λ e. cc;
    })
    | inl more ↦ elim (Bool-cases (is_immediate taker.request.tif)) [
      | inl i ↦
          rw (more, i)
            (record {
              fills_of = t.fills_of;
              no_more = sum_le _ _ _ t.sum t.nonneg;
              all_filled = λ e. cc;
              rest_rests = λ e. cc;
            })
      | inr g ↦
          rw (more, g)
            (rest_remainder-IsReportOf (refresh_display taker)
              (request-refresh_display taker ∙ t.same) (remaining-refresh_display taker) _)
    ]
  ]

remaining-new_record :
    (r : OrderRequest) (n : ℕ)
    → ((new_record r n).request ≡ r) × ((new_record r n).remaining ≡ r.quantity)
unfolding new_record
remaining-new_record r n = (refl, refl)

pub AllPositive-of_sound : (s : MarketShard) → IsSound s → AllPositive s.book_orders
AllPositive-of_sound s v k m e = (IsConsistent-IsLinked s k m v.consistent e).positive

-- The matching of a new record.
pub matched :
    (s : MarketShard) (r : OrderRequest) (n : ℕ)
    → AllPositive s.book_orders
    → pos 0 ≤ℤ r.quantity
    → let (s', taker, fills) = match_order s (new_record r n) in IsMatched r taker fills
unfolding match_order new_record
matched s r n a h =
    let (sum, nonneg) = match_order-conserves s (new_record r n) h in
    let (same, _, fills) = match_order-HasFillsOf s (new_record r n) a in
    record { same = same; sum = sum; nonneg = nonneg; fills_of = fills }

execute-IsReportOf :
    (s : MarketShard) (r : OrderRequest)
    → IsSound s
    → pos 0 ≤ℤ r.quantity
    → let (o, s') = execute s r in IsReportOf r o s'
unfolding execute
execute-IsReportOf s r v h = conclude-IsReportOf r _ _ _ (
    matched (record s { next_sequence = (s.next_sequence + 1) % 2 ^ 64 }) r s.next_sequence
      (AllPositive-of_sound s v) h)

refused-IsReportOf :
    (r : OrderRequest) (code : ℕ) (s : MarketShard)
    → pos 0 ≤ℤ r.quantity
    → IsReportOf r (rejected code []) s
unfolding filled
refused-IsReportOf r code s h = record {
  fills_of = tt;
  no_more = h;
  all_filled = λ e. cc;
  rest_rests = λ e. cc;
}

pub place_order-IsReportOf :
    (s : MarketShard) (r : OrderRequest)
    → IsSound s
    → pos 0 ≤ℤ r.quantity
    → let (o, s') = place_order s r in IsReportOf r o s'
place_order-IsReportOf s r v h =
    place_order_cases (λ p. IsReportOf r p.0 p.1) s r
      (λ _ _. refused-IsReportOf r reject_post_only_would_cross s h)
      (λ _ _. refused-IsReportOf r reject_insufficient_liquidity s h)
      (λ _ _. execute-IsReportOf s r v h)

pub ensure_market-IsSound : (e : Engine) (m : ℕ) → IsSoundEngine e → IsSound (ensure_market m e)
ensure_market-IsSound e m all = or_new-IsSound (e m) (all m)

positive_of : (q : ℤ) → leb_ℤ q (pos 0) ≡ false → pos 0 ≤ℤ q
positive_of q h = ground arith

-- Submitting an order to a sound engine, when its quantity is positive and an iceberg's displayed
-- quantity is within it: the market's shard afterwards and the result agree. Each fill is of
-- this order, of a positive quantity, at a price within its limit; the fills are no more than the
-- quantity, and all of it if the order is reported as fully filled; an order reported as resting is
-- in the map of orders with exactly what the fills left.
pub submit-IsReportOf :
    (e : Engine) (r : OrderRequest)
    → IsSoundEngine e
    → leb_ℤ r.quantity (pos 0) ≡ false
    → (has_flag r.flags iceberg && bad_display r) ≡ false
    → let (o, e') = submit e r in IsReportOf r o (ensure_market r.id.market e')
unfolding submit
submit-IsReportOf e r all good fine =
    rw (good, fine)
      (rw (insert_self r.id.market (place_order (ensure_market r.id.market e) r).1 e) (
        place_order-IsReportOf (ensure_market r.id.market e) r
          (ensure_market-IsSound e r.id.market all) (positive_of r.quantity good)))
