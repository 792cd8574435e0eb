-- ===== src/Common/Types.antt =====
-- libs/common/include/tradecore/common/types.hpp: sides, times in force, flags, order ids.
use Prim.Native.Nat.{bit_and, bit_or}
use mmperp.Prelude.{ℕ, ◌*◌, ◌%◌, ◌^◌, Bool, true, false, not, ◌==◌}

pub data Side : Type 0 where
  buy sell : Side

abbrev pub is_buy : Side → Bool
is_buy buy = true
is_buy sell = false

pub data TimeInForce : Type 0 where
  gtc ioc fok good_til_block good_til_time : TimeInForce

abbrev pub flags_none : ℕ
flags_none = 0

abbrev pub post_only : ℕ
post_only = 1

abbrev pub reduce_only : ℕ
reduce_only = 2

abbrev pub hidden : ℕ
hidden = 4

abbrev pub iceberg : ℕ
iceberg = 8

unfoldable pub has_flag : ℕ → ℕ → Bool
has_flag flags flag = not (bit_and flags flag == 0)

pub record OrderId : Type 0 where
  pub market : ℕ
  pub session : ℕ
  pub local : ℕ

-- `OrderId::value`; the shifts are those of a 64-bit word.
unfoldable pub value : OrderId → ℕ
value id = bit_or (bit_or (id.market * 2 ^ 48 % 2 ^ 64) (id.session * 2 ^ 32 % 2 ^ 64)) id.local
