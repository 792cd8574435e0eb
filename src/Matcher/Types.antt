-- ===== src/Matcher/Types.antt =====
-- libs/matcher/include/tradecore/matcher/matching_engine.hpp: requests, results, records.
use mmperp.Prelude.{ℕ, List, [], Option, Bool, ◌&&◌, Store, if◌then◌else◌}
use mmperp.Prelude.Int.{ℤ, pos, ltb_ℤ, min_ℤ}
use mmperp.Common.Types.{Side, TimeInForce, OrderId, has_flag, hidden, iceberg}

pub record FillEvent : Type 0 where
  pub maker_order : OrderId
  pub taker_order : OrderId
  pub quantity : ℤ
  pub price : ℤ

pub record OrderRequest : Type 0 where
  pub id : OrderId
  pub account : ℕ
  pub side : Side
  pub quantity : ℤ
  pub price : ℤ
  pub display_quantity : ℤ
  pub tif : TimeInForce
  pub flags : ℕ

pub record ReplaceRequest : Type 0 where
  pub id : OrderId
  pub new_quantity : ℤ
  pub new_price : ℤ
  pub new_display_quantity : ℤ
  pub new_tif : TimeInForce
  pub new_flags : ℕ

pub record OrderResult : Type 0 where
  pub accepted : Bool
  pub fully_filled : Bool
  pub resting : Bool
  pub reject_code : ℕ
  pub fills : List FillEvent

pub record CancelResult : Type 0 where
  pub cancelled : Bool
  pub reject_code : ℕ

pub record ReplaceResult : Type 0 where
  pub accepted : Bool
  pub resting : Bool
  pub reject_code : ℕ
  pub fills : List FillEvent

-- `level` is the price of the level that the record is linked into (`none` for a null pointer).
-- The links `prev` and `next` are the record's place in that level's queue.
pub record OrderRecord : Type 0 where
  pub request : OrderRequest
  pub remaining : ℤ
  pub display_remaining : ℤ
  pub display_size : ℤ
  pub level : Option ℤ
  pub fifo_seq : ℕ

unfoldable pub is_hidden : OrderRecord → Bool
is_hidden r = has_flag r.request.flags hidden

unfoldable pub is_iceberg : OrderRecord → Bool
is_iceberg r = has_flag r.request.flags iceberg

unfoldable pub refresh_display : OrderRecord → OrderRecord
refresh_display r =
    if is_hidden r
    then record r { display_remaining = pos 0 }
    else if is_iceberg r && ltb_ℤ (pos 0) r.display_size
    then record r { display_remaining = min_ℤ r.display_size r.remaining }
    else record r { display_remaining = r.remaining }

-- A price level: the keys of its records, oldest first, and the two cached quantities.
pub record PriceLevel : Type 0 where
  pub queue : List ℕ
  pub total_qty : ℤ
  pub visible_qty : ℤ

abbrev pub empty_level : PriceLevel
empty_level = record { queue = []; total_qty = pos 0; visible_qty = pos 0 }

abbrev pub Book : Type 0
Book = List (ℤ × PriceLevel)

-- `book_orders` owns the records, under their encoded ids; the levels refer to them by key.
-- A book lists its levels from the best price on.
pub record MarketShard : Type 0 where
  pub book_orders : Store OrderRecord
  pub bids : Book
  pub asks : Book
  pub next_sequence : ℕ
