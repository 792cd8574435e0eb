-- ===== src/Matcher/Matching.antt =====
-- libs/matcher/src/matching_engine.cpp: `crosses`, `fillable_quantity` and `match_order`.
pub mod Rule
pub mod Fills
pub mod Trade
use mmperp.Prelude.{
  ℕ, List, [], ◌∷◌, ◌++◌, Bool, Option, some, none, Store, insert, erase, if◌then◌else◌,
}
use mmperp.Prelude.Int.{ℤ, pos, ◌+ℤ◌, ◌-ℤ◌, ltb_ℤ, leb_ℤ, eqb_ℤ, min_ℤ}
use mmperp.Common.Types.{Side, buy, sell, value}
use mmperp.Matcher.Types.{FillEvent, OrderRequest, OrderRecord, PriceLevel, Book, MarketShard}
use mmperp.Matcher.Level.{update_after_fill, remove, is_empty}

unfoldable pub crosses : Side → ℤ → ℤ → Bool
crosses buy taker maker = leb_ℤ maker taker
crosses sell taker maker = leb_ℤ taker maker

-- The book that an order of a side trades against.
abbrev pub opposite : Side → MarketShard → Book
opposite buy s = s.asks
opposite sell s = s.bids

abbrev pub with_opposite : Side → Book → MarketShard → MarketShard
with_opposite buy b s = record s { asks = b }
with_opposite sell b s = record s { bids = b }

-- The loop over the levels, from the total so far: it stops at the first level that does not
-- cross, and as soon as the total suffices.
unfoldable pub fillable_from : Side → ℤ → ℤ → ℤ → Book → ℤ
fillable_from side limit quantity total [] = total
fillable_from side limit quantity total ((price, level) ∷ rest) =
    let total' = total +ℤ level.total_qty in
    let later = fillable_from side limit quantity total' rest in
    if crosses side limit price then (if leb_ℤ quantity total' then total' else later) else total

unfoldable pub fillable_quantity : MarketShard → OrderRequest → ℤ
unfolding fillable_from
fillable_quantity s r = fillable_from r.side r.price r.quantity (pos 0) (opposite r.side s)

-- What a pass over one level changes.
pub record Pass : Type 0 where
  pub orders : Store OrderRecord
  pub level : PriceLevel
  pub taker : OrderRecord
  pub fills : List FillEvent

abbrev pub fill_event : OrderRecord → OrderRecord → ℤ → ℤ → FillEvent
fill_event maker taker traded price = record {
  maker_order = maker.request.id;
  taker_order = taker.request.id;
  quantity = traded;
  price = price;
}

-- After the trade: a maker with nothing left leaves its level and the map of orders.
unfoldable pub settle : ℕ → Pass → OrderRecord → Pass
unfolding remove
settle key p maker =
    if eqb_ℤ maker.remaining (pos 0)
    then record p {
      level = (remove p.level key maker).0;
      orders = erase (value maker.request.id) p.orders;
    }
    else record p { orders = insert key maker p.orders }

abbrev pub reduce : OrderRecord → ℤ → OrderRecord
reduce r traded = record r { remaining = r.remaining -ℤ traded }

abbrev pub traded_with : OrderRecord → OrderRecord → ℤ
traded_with taker maker = min_ℤ taker.remaining maker.remaining

-- Both sides are reduced, the level's quantities follow, and the fill is reported.
unfoldable pub fill : ℤ → Pass → OrderRecord → Pass × OrderRecord
unfolding update_after_fill
fill price p maker =
    let traded = traded_with p.taker maker in
    let taker = reduce p.taker traded in
    let (level, maker') = update_after_fill p.level (reduce maker traded) traded in
    (
      record {
        orders = p.orders;
        level = level;
        taker = taker;
        fills = p.fills ++ fill_event maker' taker traded price ∷ [];
      },
      maker',
    )

-- One round of the inner loop, with the maker that the key refers to.
unfoldable pub trade : ℤ → ℕ → Pass → OrderRecord → Pass
unfolding settle fill
trade price key p maker = let (q, maker') = fill price p maker in settle key q maker'

-- A key with no record would be a dangling pointer.
unfoldable pub visit : ℤ → ℕ → Pass → Option OrderRecord → Pass
unfolding trade
visit price key p none = p
visit price key p (some maker) = trade price key p maker

-- The inner loop, over the keys that it will come to: `maker->next` is read before the maker is
-- unlinked.
unfoldable pub consume_queue : ℤ → List ℕ → Pass → Pass
unfolding visit
consume_queue price [] p = p
consume_queue price (key ∷ keys) p =
    let rest = consume_queue price keys (visit price key p (p.orders key)) in
    if ltb_ℤ (pos 0) p.taker.remaining then rest else p

-- What the pass over a whole book changes.
pub record Sweep : Type 0 where
  pub orders : Store OrderRecord
  pub book : Book
  pub taker : OrderRecord
  pub fills : List FillEvent

abbrev pub keep_level : ℤ → PriceLevel → Sweep → Sweep
keep_level price level s = record s {
  book = if is_empty level then s.book else (price, level) ∷ s.book;
}

abbrev pub stop_at : Book → Store OrderRecord → OrderRecord → List FillEvent → Sweep
stop_at book orders taker fills = record {
  orders = orders;
  book = book;
  taker = taker;
  fills = fills;
}

abbrev pub start_level : PriceLevel → Store OrderRecord → OrderRecord → List FillEvent → Pass
start_level level orders taker fills = record {
  orders = orders;
  level = level;
  taker = taker;
  fills = fills;
}

-- The outer loop, over the levels from the best one on.
unfoldable pub consume_book : Book → Store OrderRecord → OrderRecord → List FillEvent → Sweep
unfolding consume_queue crosses
consume_book [] orders taker fills = stop_at [] orders taker fills
consume_book ((price, level) ∷ rest) orders taker fills =
    let p = consume_queue price level.queue (start_level level orders taker fills) in
    let on = keep_level price p.level (consume_book rest p.orders p.taker p.fills) in
    if ltb_ℤ (pos 0) taker.remaining
    then (if crosses taker.request.side taker.request.price price
        then on
        else stop_at ((price, level) ∷ rest) orders taker fills)
    else stop_at ((price, level) ∷ rest) orders taker fills

-- The shard, the taker and the fills afterwards.
unfoldable pub match_order : MarketShard → OrderRecord → MarketShard × OrderRecord × List FillEvent
unfolding consume_book
match_order s taker =
    let w = consume_book (opposite taker.request.side s) s.book_orders taker [] in
    (
      with_opposite taker.request.side w.book (record s { book_orders = w.orders }),
      w.taker,
      w.fills,
    )
