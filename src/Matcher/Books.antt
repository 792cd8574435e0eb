-- ===== src/Matcher/Books.antt =====
-- libs/matcher/src/matching_engine.cpp: `rest_order` and `remove_order_from_book`.
use mmperp.Prelude.{ℕ, [], ◌∷◌, Bool, Option, some, none, insert, if◌then◌else◌}
use mmperp.Prelude.Int.{ℤ, ltb_ℤ, eqb_ℤ}
use mmperp.Common.Types.{Side, buy, sell}
use mmperp.Matcher.Types.{OrderRecord, empty_level, Book, MarketShard}
use mmperp.Matcher.Level.{push_back, remove, is_empty}

-- The order of the maps: bids by falling price, asks by rising price.
abbrev pub before : Side → ℤ → ℤ → Bool
before buy p q = ltb_ℤ q p
before sell p q = ltb_ℤ p q

abbrev pub own_book : Side → MarketShard → Book
own_book buy s = s.bids
own_book sell s = s.asks

abbrev pub with_own_book : Side → Book → MarketShard → MarketShard
with_own_book buy b s = record s { bids = b }
with_own_book sell b s = record s { asks = b }

-- `try_emplace` of the price and `push_back` on the level found or made.
unfoldable pub push_at : Side → ℤ → ℕ → OrderRecord → Book → Book
unfolding push_back
push_at side price key r [] = (price, (push_back empty_level key price r).0) ∷ []
push_at side price key r ((p, l) ∷ rest) =
    if eqb_ℤ p price
    then (p, (push_back l key price r).0) ∷ rest
    else if before side price p
    then (price, (push_back empty_level key price r).0) ∷ (p, l) ∷ rest
    else (p, l) ∷ push_at side price key r rest

unfoldable pub rest_order : MarketShard → ℕ → OrderRecord → MarketShard
unfolding push_at
rest_order s key r =
    let side = r.request.side in
    let price = r.request.price in
    let book = push_at side price key r (own_book side s) in
    with_own_book side book
      (record s { book_orders = insert key (record r { level = some price }) s.book_orders })

-- The level is erased from the map with its last record.
unfoldable pub remove_at : ℤ → ℕ → OrderRecord → Book → Book
unfolding remove
remove_at price key r [] = []
remove_at price key r ((p, l) ∷ rest) =
    if eqb_ℤ p price
    then (let l' = (remove l key r).0 in if is_empty l' then rest else (p, l') ∷ rest)
    else (p, l) ∷ remove_at price key r rest

-- A record that no level holds is left alone.
unfoldable pub remove_order_from_book : MarketShard → ℕ → OrderRecord → Option ℤ → MarketShard
unfolding remove_at
remove_order_from_book s key r none = s
remove_order_from_book s key r (some _) =
    let side = r.request.side in
    with_own_book side (remove_at r.request.price key r (own_book side s)) s
