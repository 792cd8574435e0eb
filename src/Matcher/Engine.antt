-- ===== src/Matcher/Engine.antt =====
-- libs/matcher/src/matching_engine.cpp: `MatchingEngine` and its requests.
use mmperp.Prelude.{
  ℕ, ◌+◌, ◌%◌, ◌^◌, List, [], ◌∷◌, Bool, true, false, ◌||◌, ◌&&◌, Option, some, none, Store, vacant,
  insert, erase, if◌then◌else◌,
}
use mmperp.Prelude.Int.{pos, ltb_ℤ, leb_ℤ, min_ℤ}
use mmperp.Common.Types.{
  OrderId, value, TimeInForce, ioc, fok, has_flag, post_only, hidden, iceberg,
}
use mmperp.Matcher.Types.{
  FillEvent, OrderRequest, ReplaceRequest, OrderResult, CancelResult, ReplaceResult, OrderRecord,
  Book, MarketShard, refresh_display,
}
use mmperp.Matcher.Matching.{crosses, opposite, fillable_quantity, match_order}
use mmperp.Matcher.Books.{rest_order, remove_order_from_book}

abbrev pub reject_unknown_market : ℕ
reject_unknown_market = 1001

abbrev pub reject_insufficient_liquidity : ℕ
reject_insufficient_liquidity = 1002

abbrev pub reject_post_only_would_cross : ℕ
reject_post_only_would_cross = 1003

abbrev pub reject_order_not_found : ℕ
reject_order_not_found = 1004

abbrev pub reject_invalid_quantity : ℕ
reject_invalid_quantity = 1005

abbrev pub reject_duplicate_order_id : ℕ
reject_duplicate_order_id = 1006

abbrev pub reject_invalid_display_quantity : ℕ
reject_invalid_display_quantity = 1007

abbrev pub rejected : ℕ → List FillEvent → OrderResult
rejected code fills = record {
  accepted = false;
  fully_filled = false;
  resting = false;
  reject_code = code;
  fills = fills;
}

-- The order would cross the best level of the book.
unfoldable pub crosses_best : OrderRequest → Book → Bool
unfolding crosses
crosses_best r [] = false
crosses_best r ((price, _) ∷ _) = crosses r.side r.price price

abbrev pub is_fok : TimeInForce → Bool
is_fok fok = true
is_fok _ = false

abbrev pub is_immediate : TimeInForce → Bool
is_immediate ioc = true
is_immediate fok = true
is_immediate _ = false

-- The taker's record, with its display fields for its kind of order.
unfoldable pub new_record : OrderRequest → ℕ → OrderRecord
new_record r seq =
    let h = has_flag r.flags hidden in
    let i = has_flag r.flags iceberg in
    record {
      request = r;
      remaining = r.quantity;
      display_remaining =
          if h then pos 0 else if i then min_ℤ r.display_quantity r.quantity else r.quantity;
      display_size = if h then pos 0 else if i then r.display_quantity else r.quantity;
      level = none;
      fifo_seq = seq;
    }

-- `emplace` and `rest_order`: an id that is already in the map is refused, after the matching.
unfoldable pub rest_remainder :
    MarketShard → OrderRecord → List FillEvent → Option OrderRecord → OrderResult × MarketShard
unfolding rest_order
rest_remainder s r fills (some _) = (rejected reject_duplicate_order_id fills, s)
rest_remainder s r fills none = (
  record { accepted = true; fully_filled = false; resting = true; reject_code = 0; fills = fills },
  rest_order s (value r.request.id) r,
)

-- What happens to the taker once it has been matched.
unfoldable pub conclude : MarketShard → OrderRecord → List FillEvent → OrderResult × MarketShard
unfolding rest_remainder refresh_display
conclude s taker fills =
    if ltb_ℤ (pos 0) taker.remaining
    then (if is_immediate taker.request.tif
        then (
          record {
            accepted = true;
            fully_filled = false;
            resting = false;
            reject_code = 0;
            fills = fills;
          },
          s,
        )
        else rest_remainder s (refresh_display taker) fills
            (s.book_orders (value taker.request.id)))
    else (
      record {
        accepted = true;
        fully_filled = true;
        resting = false;
        reject_code = 0;
        fills = fills;
      },
      s,
    )

-- `next_sequence++` on 64 bits, then the matching.
unfoldable pub execute : MarketShard → OrderRequest → OrderResult × MarketShard
unfolding new_record match_order conclude
execute s r =
    let taker = new_record r s.next_sequence in
    let (s', taker', fills) =
      match_order (record s { next_sequence = (s.next_sequence + 1) % 2 ^ 64 }) taker in
    conclude s' taker' fills

unfoldable pub place_order : MarketShard → OrderRequest → OrderResult × MarketShard
unfolding crosses_best fillable_quantity execute
place_order s r =
    if has_flag r.flags post_only && crosses_best r (opposite r.side s)
    then (rejected reject_post_only_would_cross [], s)
    else if is_fok r.tif && ltb_ℤ (fillable_quantity s r) r.quantity
    then (rejected reject_insufficient_liquidity [], s)
    else execute s r

-- `markets_`, by market id.
abbrev pub Engine : Type 0
Engine = Store MarketShard

abbrev pub new_shard : MarketShard
new_shard = record { book_orders = vacant; bids = []; asks = []; next_sequence = 1 }

abbrev pub or_new : Option MarketShard → MarketShard
or_new none = new_shard
or_new (some s) = s

unfoldable pub add_market : ℕ → Engine → Engine
add_market m e = insert m (or_new (e m)) e

unfoldable pub clear_market : ℕ → Engine → Engine
clear_market m e = insert m new_shard e

-- `ensure_market`: the shard that the market has after the call.
abbrev pub ensure_market : ℕ → Engine → MarketShard
ensure_market m e = or_new (e m)

abbrev pub put {ℓ} : {R : Type ℓ} → ℕ → Engine → R × MarketShard → R × Engine
put m e (r, s) = (r, insert m s e)

abbrev pub bad_display : OrderRequest → Bool
bad_display r = leb_ℤ r.display_quantity (pos 0) || ltb_ℤ r.quantity r.display_quantity

unfoldable pub submit : Engine → OrderRequest → OrderResult × Engine
unfolding place_order
submit e r =
    if leb_ℤ r.quantity (pos 0)
    then (rejected reject_invalid_quantity [], e)
    else if has_flag r.flags iceberg && bad_display r
    then (rejected reject_invalid_display_quantity [], e)
    else put r.id.market e (place_order (ensure_market r.id.market e) r)

abbrev pub not_cancelled : ℕ → CancelResult
not_cancelled code = record { cancelled = false; reject_code = code }

-- The record leaves its level, and then the map.
unfoldable pub withdraw : MarketShard → ℕ → OrderRecord → MarketShard
unfolding remove_order_from_book
withdraw s key r =
    let s' = remove_order_from_book s key r r.level in
    record s' { book_orders = erase key s'.book_orders }

unfoldable pub cancel_record : MarketShard → ℕ → Option OrderRecord → CancelResult × MarketShard
unfolding withdraw
cancel_record s key none = (not_cancelled reject_order_not_found, s)
cancel_record s key (some r) = (record { cancelled = true; reject_code = 0 }, withdraw s key r)

unfoldable pub cancel_in : ℕ → Engine → OrderId → Option MarketShard → CancelResult × Engine
unfolding cancel_record
cancel_in m e id none = (not_cancelled reject_unknown_market, e)
cancel_in m e id (some s) = put m e (cancel_record s (value id) (s.book_orders (value id)))

unfoldable pub cancel : Engine → OrderId → CancelResult × Engine
unfolding cancel_in
cancel e id = cancel_in id.market e id (e id.market)

abbrev pub not_replaced : ℕ → ReplaceResult
not_replaced code = record { accepted = false; resting = false; reject_code = code; fills = [] }

abbrev pub to_replace_result : OrderResult → ReplaceResult
to_replace_result r = record {
  accepted = r.accepted;
  resting = r.resting;
  reject_code = r.reject_code;
  fills = r.fills;
}

-- Account and side are those of the old record.
abbrev pub replaced_request : OrderRequest → ReplaceRequest → OrderRequest
replaced_request old r = record {
  id = r.id;
  account = old.account;
  side = old.side;
  quantity = r.new_quantity;
  price = r.new_price;
  display_quantity = r.new_display_quantity;
  tif = r.new_tif;
  flags = r.new_flags;
}

unfoldable pub replace_record :
    MarketShard → ReplaceRequest → Option OrderRecord → ReplaceResult × MarketShard
unfolding withdraw place_order
replace_record s r none = (not_replaced reject_order_not_found, s)
replace_record s r (some old) =
    let (result, s') = place_order (withdraw s (value r.id) old) (replaced_request old.request r) in
    (to_replace_result result, s')

unfoldable pub replace_in : Engine → ReplaceRequest → Option MarketShard → ReplaceResult × Engine
unfolding replace_record
replace_in e r none = (not_replaced reject_unknown_market, e)
replace_in e r (some s) = put r.id.market e (replace_record s r (s.book_orders (value r.id)))

unfoldable pub replace : Engine → ReplaceRequest → ReplaceResult × Engine
unfolding replace_in
replace e r = replace_in e r (e r.id.market)
