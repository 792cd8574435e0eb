-- ===== src/Ingress/Codec.antt =====
-- The messages of sbe_messages.hpp survive their encoding, and are refused only for their length.
use mmperp.Prelude.{
  ℕ, ◌<◌, ◌^◌, ◌≡◌, refl, List, ◌++◌, Option, some, length, length-append, arith, append_assoc, ◌∙◌,
}
use mmperp.Common.Types.{Side, buy, sell}
use mmperp.Common.Bytes.{
  to_bytes, to_word, IsI64, read_word-to_bytes, of_word-to_word, to_word-lt, length-to_bytes,
}
use mmperp.Ingress.Messages.{
  NewOrder, Cancel, Replace, encode_cancel, read_cancel, decode_cancel, side_byte, side_of,
  require_size, encode_new_order, read_new_order, decode_new_order, encode_replace, read_replace,
  decode_replace,
}

abbrev pub IsNewOrder : NewOrder → Type 0
IsNewOrder m = IsI64 m.quantity × IsI64 m.price × (m.flags < 2 ^ 16)

abbrev pub IsReplace : Replace → Type 0
IsReplace m =
    (m.order_id < 2 ^ 64) × IsI64 m.new_quantity × IsI64 m.new_price × (m.new_flags < 2 ^ 16)

side_of-side_byte : (s : Side) → side_of (side_byte s) ≡ s
side_of-side_byte buy = refl
side_of-side_byte sell = refl

side_byte-lt : (s : Side) → side_byte s < 256
side_byte-lt buy = omega arith
side_byte-lt sell = omega arith

read-encode_new_order :
    (m : NewOrder) (rest : List ℕ)
    → IsNewOrder m
    → read_new_order (encode_new_order m ++ rest) ≡ some m
unfolding read_new_order encode_new_order
read-encode_new_order m rest (q, p, f) = rw (
  append_assoc,
  append_assoc,
  append_assoc,
  read_word-to_bytes 1 (side_byte m.side) _ (side_byte-lt m.side),
  read_word-to_bytes 8 (to_word m.quantity) _ (to_word-lt m.quantity),
  read_word-to_bytes 8 (to_word m.price) _ (to_word-lt m.price),
  read_word-to_bytes 2 m.flags rest f,
  side_of-side_byte m.side,
  of_word-to_word m.quantity q,
  of_word-to_word m.price p,
)

read-encode_replace :
    (m : Replace) (rest : List ℕ) → IsReplace m → read_replace (encode_replace m ++ rest) ≡ some m
unfolding read_replace encode_replace
read-encode_replace m rest (o, q, p, f) = rw (
  append_assoc,
  append_assoc,
  append_assoc,
  read_word-to_bytes 8 m.order_id _ o,
  read_word-to_bytes 8 (to_word m.new_quantity) _ (to_word-lt m.new_quantity),
  read_word-to_bytes 8 (to_word m.new_price) _ (to_word-lt m.new_price),
  read_word-to_bytes 2 m.new_flags rest f,
  of_word-to_word m.new_quantity q,
  of_word-to_word m.new_price p,
)

length-encode_new_order : (m : NewOrder) → length (encode_new_order m) ≡ 19
unfolding encode_new_order
length-encode_new_order m = simp (length-append, length-to_bytes)

length-encode_replace : (m : Replace) → length (encode_replace m) ≡ 26
unfolding encode_replace
length-encode_replace m = simp (length-append, length-to_bytes)

-- The size check lets through what is long enough.
long_enough {ℓ} :
    {A : Type ℓ} (n : ℕ) (xs rest : List ℕ) (r : Option A)
    → length xs ≡ n
    → require_size (xs ++ rest) n r ≡ r
long_enough n xs rest r h = ground (arith, length-append xs rest)

decode-encode_new_order :
    (m : NewOrder) (rest : List ℕ)
    → IsNewOrder m
    → decode_new_order (encode_new_order m ++ rest) ≡ some m
unfolding decode_new_order
decode-encode_new_order m rest h =
    long_enough 19 (encode_new_order m) rest _ (length-encode_new_order m)
    ∙ read-encode_new_order m rest h

decode-encode_replace :
    (m : Replace) (rest : List ℕ) → IsReplace m → decode_replace (encode_replace m ++ rest) ≡ some m
unfolding decode_replace
decode-encode_replace m rest h =
    long_enough 26 (encode_replace m) rest _ (length-encode_replace m)
    ∙ read-encode_replace m rest h

decode-encode_cancel :
    (m : Cancel) (rest : List ℕ)
    → m.order_id < 2 ^ 64
    → decode_cancel (encode_cancel m ++ rest) ≡ some m
unfolding decode_cancel read_cancel encode_cancel
decode-encode_cancel m rest o =
    long_enough 8 (to_bytes 8 m.order_id) rest _ (length-to_bytes 8 m.order_id)
    ∙ rw (read_word-to_bytes 8 m.order_id rest o) refl

-- A new order, a cancel and a replacement whose fields fit their types are decoded from their
-- encodings, whatever follows these.
pub messages_decode :
    (n : NewOrder) (c : Cancel) (r : Replace) (rest : List ℕ)
    → IsNewOrder n
    → c.order_id < 2 ^ 64
    → IsReplace r
    → (decode_new_order (encode_new_order n ++ rest) ≡ some n)
      × (decode_cancel (encode_cancel c ++ rest) ≡ some c)
      × (decode_replace (encode_replace r ++ rest) ≡ some r)
messages_decode n c r rest hn hc hr = (
  decode-encode_new_order n rest hn,
  decode-encode_cancel c rest hc,
  decode-encode_replace r rest hr,
)
