-- ===== src/Ingress/Messages.antt =====
-- libs/ingest/include/tradecore/ingest/sbe_messages.hpp: the messages in the payloads of frames.
use mmperp.Prelude.{ℕ, List, ◌++◌, Option, none, some, ◌>>=◌, length, ltb, ◌==◌, if◌then◌else◌}
use mmperp.Prelude.Int.{ℤ}
use mmperp.Common.Types.{Side, buy, sell}
use mmperp.Common.Bytes.{to_bytes, read_word, to_word, of_word}

pub record NewOrder : Type 0 where
  pub side : Side
  pub quantity : ℤ
  pub price : ℤ
  pub flags : ℕ

pub record Cancel : Type 0 where
  pub order_id : ℕ

pub record Replace : Type 0 where
  pub order_id : ℕ
  pub new_quantity : ℤ
  pub new_price : ℤ
  pub new_flags : ℕ

abbrev pub side_byte : Side → ℕ
side_byte buy = 0
side_byte sell = 1

-- The program asks of a side only whether it is `kBuy`, so that any other byte is a sale.
abbrev pub side_of : ℕ → Side
side_of b = if b == 0 then buy else sell

abbrev pub new_order_encoded_size : ℕ
new_order_encoded_size = 19

abbrev pub cancel_encoded_size : ℕ
cancel_encoded_size = 8

abbrev pub replace_encoded_size : ℕ
replace_encoded_size = 26

-- The decoding of a payload that is too short throws, which is `none`.
abbrev pub require_size {ℓ} : {A : Type ℓ} → List ℕ → ℕ → Option A → Option A
require_size bytes required decoded = if ltb (length bytes) required then none else decoded

unfoldable pub encode_new_order : NewOrder → List ℕ
encode_new_order m =
    to_bytes 1 (side_byte m.side)
    ++ (to_bytes 8 (to_word m.quantity) ++ (to_bytes 8 (to_word m.price) ++ to_bytes 2 m.flags))

unfoldable pub read_new_order : List ℕ → Option NewOrder
read_new_order bytes = do
  (side, rest) ← read_word 1 bytes
  (quantity, rest) ← read_word 8 rest
  (price, rest) ← read_word 8 rest
  (flags, _) ← read_word 2 rest
  some record {
    side = side_of side;
    quantity = of_word quantity;
    price = of_word price;
    flags = flags;
  }

unfoldable pub decode_new_order : List ℕ → Option NewOrder
unfolding read_new_order
decode_new_order bytes = require_size bytes new_order_encoded_size (read_new_order bytes)

unfoldable pub encode_cancel : Cancel → List ℕ
encode_cancel m = to_bytes 8 m.order_id

unfoldable pub read_cancel : List ℕ → Option Cancel
read_cancel bytes = do (order_id, _) ← read_word 8 bytes; some record { order_id = order_id }

unfoldable pub decode_cancel : List ℕ → Option Cancel
unfolding read_cancel
decode_cancel bytes = require_size bytes cancel_encoded_size (read_cancel bytes)

unfoldable pub encode_replace : Replace → List ℕ
encode_replace m =
    to_bytes 8 m.order_id
    ++ (to_bytes 8 (to_word m.new_quantity)
        ++ (to_bytes 8 (to_word m.new_price) ++ to_bytes 2 m.new_flags))

unfoldable pub read_replace : List ℕ → Option Replace
read_replace bytes = do
  (order_id, rest) ← read_word 8 bytes
  (new_quantity, rest) ← read_word 8 rest
  (new_price, rest) ← read_word 8 rest
  (new_flags, _) ← read_word 2 rest
  some record {
    order_id = order_id;
    new_quantity = of_word new_quantity;
    new_price = of_word new_price;
    new_flags = new_flags;
  }

unfoldable pub decode_replace : List ℕ → Option Replace
unfolding read_replace
decode_replace bytes = require_size bytes replace_encoded_size (read_replace bytes)
