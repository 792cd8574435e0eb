-- ===== src/Common/Ring.antt =====
-- libs/common/include/tradecore/common/spsc_ring.hpp: the ring, with each call as one step.
pub mod Refine
mod Tests
use Prim.Native.Nat.{bit_and}
use mmperp.Prelude.{
  ℕ, ◌+◌, ◌-◌, ◌%◌, Bool, true, false, ◌||◌, not, Option, none, some, Store, vacant, insert, erase,
  ◌==◌, if◌then◌else◌,
}

pub record Ring {ℓ} (A : Type ℓ) : Type ℓ where
  pub buffer : Store A
  pub capacity : ℕ
  pub head : ℕ
  pub tail : ℕ

module _ {ℓ} {A : Type ℓ} where
  abbrev pub new_ring : ℕ → Ring A
  new_ring capacity = record { buffer = vacant; capacity = capacity; head = 0; tail = 0 }

  -- The constructor throws, which is `none`, for a capacity that is no power of two.
  unfoldable pub make_ring : ℕ → Option (Ring A)
  make_ring capacity =
      if capacity == 0 || not (bit_and capacity (capacity - 1) == 0)
      then none
      else some (new_ring capacity)

  -- `& mask_`, for a capacity that is a power of two.
  abbrev pub wrapped : Ring A → ℕ → ℕ
  wrapped r n = n % r.capacity

  unfoldable pub push : Ring A → A → Bool × Ring A
  push r v =
      let next_head = wrapped r (r.head + 1) in
      if next_head == r.tail
      then (false, r)
      else (true, record r { buffer = insert r.head v r.buffer; head = next_head })

  unfoldable pub pop : Ring A → Option A × Ring A
  pop r = if r.tail == r.head then (none, r) else (
    r.buffer r.tail,
    record r { buffer = erase r.tail r.buffer; tail = wrapped r (r.tail + 1) },
  )

  unfoldable pub is_drained : Ring A → Bool
  is_drained r = r.tail == r.head
