-- ===== src/Matcher/Tests.antt =====
-- The matching engine at concrete orders.
use mmperp.Prelude.{
  ℕ, List, [], ◌∷◌, ◌≡◌, some, none, Option, refl, true, vacant, insert, erase, arith, map,
}
use mmperp.Prelude.Int.{pos, ◌-ℤ◌, ◌+ℤ◌, min_ℤ}
use mmperp.Common.Types.{Side, buy, sell, gtc, fok, OrderId, value, iceberg, post_only, has_flag}
use mmperp.Matcher.Types.{is_hidden, is_iceberg, OrderRequest, OrderRecord, MarketShard}
use mmperp.Matcher.Matching.Fills.{filled}
use mmperp.Matcher.Engine.{Engine, submit, place_order, ensure_market, new_record, cancel}
use mmperp.Matcher.Requests.{IsSound, IsSoundEngine}
use mmperp.Matcher.Requests.Soundness.{Request, submits, run, run-vacant-IsSound}
use mmperp.Matcher.Requests.Reports.{IsReportOf, submit-IsReportOf, ensure_market-IsSound}
use mmperp.Matcher.Requests.Conditions.{place_order-fok, place_order-post_only, IsAllOrNothing}
use mmperp.Matcher.Requests.Served.{maker_of}
use mmperp.Matcher.Requests.Cancels.{cancel_twice}

abbrev order_id : ℕ → OrderId
order_id n = record { market = 1; session = 2; local = n }

abbrev order : ℕ → Side → ℕ → ℕ → OrderRequest
order n side quantity price = record {
  id = order_id n;
  account = 7;
  side = side;
  quantity = pos quantity;
  price = pos price;
  display_quantity = pos 0;
  tif = gtc;
  flags = 0;
}

-- Two asks at 101, one of them an iceberg, behind one at 100.
abbrev script : List Request
script =
    submits (order 1 sell 5 101)
    ∷ submits (record (order 2 sell 8 101) { flags = iceberg; display_quantity = pos 3 })
    ∷ submits (order 3 sell 4 100)
    ∷ []

engine : Engine
unfolding run value has_flag insert erase is_hidden is_iceberg ◌-ℤ◌ ◌+ℤ◌ min_ℤ filled
engine = run vacant script

-- It takes all of the first two asks, and one of the iceberg.
abbrev bid : OrderRequest
bid = order 9 buy 10 101

run-vacant-IsSound_example : IsSoundEngine (run vacant script)
run-vacant-IsSound_example = run-vacant-IsSound script

engine-IsSound : IsSoundEngine engine
unfolding engine
engine-IsSound = run-vacant-IsSound script

abbrev market : MarketShard
market = ensure_market 1 engine

market-IsSound : IsSound market
market-IsSound = ensure_market-IsSound engine 1 engine-IsSound

filled_ten : filled (submit engine bid).0.fills ≡ pos 10
unfolding engine
filled_ten = refl

makers :
    map maker_of (submit engine bid).0.fills
    ≡ (pos 100, value (order_id 3))
      ∷ (pos 101, value (order_id 1))
      ∷ (pos 101, value (order_id 2))
      ∷ []
unfolding engine
makers = refl

submit-IsReportOf_example : let (o, e') = submit engine bid in IsReportOf bid o (ensure_market 1 e')
unfolding has_flag
submit-IsReportOf_example = submit-IsReportOf engine bid engine-IsSound refl refl

place_order-fok_example :
    IsAllOrNothing (record bid { tif = fok }) market (place_order market (record bid { tif = fok }))
place_order-fok_example =
    place_order-fok market (record bid { tif = fok }) market-IsSound (omega arith) refl

place_order-post_only_example : (place_order market (record bid { flags = post_only })).0.fills ≡ []
unfolding has_flag
place_order-post_only_example = place_order-post_only market (record bid { flags = post_only }) refl

or_record : Option OrderRecord → OrderRecord
or_record none = new_record bid 0
or_record (some m) = m

cancel_twice_example : (cancel engine (order_id 2)).0.cancelled ≡ true
unfolding engine or_record
cancel_twice_example =
    (cancel_twice engine (order_id 2) market (or_record (market.book_orders (value (order_id 2))))
      engine-IsSound refl refl).0
