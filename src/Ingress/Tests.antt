-- ===== src/Ingress/Tests.antt =====
-- The rate limit on a concrete window, and a full queue.
use mmperp.Common.Types.{sell}
use mmperp.Ingress.Messages.{
  NewOrder, Replace, encode_cancel, decode_cancel, encode_new_order, decode_new_order,
  encode_replace, decode_replace,
}
use mmperp.Ingress.Codec.{messages_decode}
use mmperp.Prelude.{List, ◌≡◌, refl, none, some, [], ◌∷◌, ◌++◌, arith}
use mmperp.Prelude.Int.{ℤ, pos, negsuc, ◌-ℤ◌}
use mmperp.Ingress.{
  MessageKind, cancel, IngressConfig, AccountWindow, new_order, rate_limit, Frame, Pipeline,
  configured, submit_frame, check_auth, check_rate, rolled, limited, admit, finish, enqueue,
}
use mmperp.Common.Ring.{push, new_ring}
use mmperp.Ingress.Refusals.{submit_frame_refused}
use mmperp.Ingress.Limits.{admitted, how_many, how_many-admitted}

abbrev small : IngressConfig
small = record {
  new_order_queue_depth = 4;
  cancel_queue_depth = 4;
  replace_queue_depth = 4;
  max_new_orders_per_second = 2;
  max_cancels_per_second = 2;
  max_replaces_per_second = 2;
}

abbrev busy : AccountWindow
busy = record { window_start = pos 5; new_orders = 1; cancels = 0; replaces = 2 }

-- One order too many.
abbrev asked : List (MessageKind × ℤ)
asked = (new_order, pos 2000000001) ∷ (cancel, pos 2000000002) ∷ (new_order, pos 2000000003) ∷ []

how_many-admitted_example :
    how_many new_order (admitted small busy ((new_order, pos 2000000000) ∷ asked)) ≡ 2
unfolding ◌-ℤ◌
how_many-admitted_example =
    how_many-admitted small busy new_order new_order (pos 2000000000) asked refl (omega arith)
      (omega arith, (omega arith, (omega arith, tt)))

-- A queue of one place holds nothing.
abbrev narrow : Pipeline
narrow =
    configured record small { new_order_queue_depth = 1 } none (new_ring 1) (new_ring 4)
      (new_ring 4)

abbrev order_frame : Frame
order_frame = record {
  header = record {
    account = 3;
    nonce = 1;
    received_time_ns = pos 9;
    priority = 0;
    kind = new_order;
  };
  payload = [];
}

submit_frame_refused_example : (submit_frame narrow order_frame).1.queues ≡ narrow.queues
unfolding submit_frame check_auth check_rate rate_limit rolled limited admit finish enqueue push
    ◌-ℤ◌
submit_frame_refused_example = submit_frame_refused narrow order_frame refl

abbrev sale : NewOrder
sale = record { side = sell; quantity = pos 5; price = negsuc 6; flags = 3 }

abbrev dearer : Replace
dearer = record { order_id = 77; new_quantity = pos 5; new_price = pos 8; new_flags = 0 }

messages_decode_example :
    (decode_new_order (encode_new_order sale ++ (9 ∷ [])) ≡ some sale)
    × (decode_cancel (encode_cancel (record { order_id = 77 }) ++ (9 ∷ []))
        ≡ some record { order_id = 77 })
    × (decode_replace (encode_replace dearer ++ (9 ∷ [])) ≡ some dearer)
messages_decode_example =
    messages_decode sale (record { order_id = 77 }) dearer (9 ∷ [])
      (omega arith, omega arith, omega arith) (omega arith)
      (omega arith, omega arith, omega arith, omega arith)
