-- ===== src/Common/Bytes.antt =====
-- `std::bit_cast` between words and bytes, on a machine that stores the low byte first. A signed word
-- is its two's complement.
use mmperp.Prelude.{
  ℕ, zero, suc, ◌+◌, ◌-◌, ◌*◌, ◌/◌, ◌%◌, ◌^◌, ◌≤◌, ◌<◌, ◌≡◌, refl, ap, List, [], ◌∷◌, ◌++◌, Option,
  none, some, length, length-append, take, drop, ltb, if◌then◌else◌, arith, All,
}
use mmperp.Prelude.Int.{ℤ, pos, negsuc, pos_part, neg_part}

-- The low `w` bytes of a word.
unfoldable pub to_bytes : ℕ → ℕ → List ℕ
to_bytes zero n = []
to_bytes (suc w) n = (n % 256) ∷ to_bytes w (n / 256)

unfoldable pub from_bytes : List ℕ → ℕ
from_bytes [] = 0
from_bytes (b ∷ bs) = b + 256 * from_bytes bs

abbrev pub IsByte : ℕ → Type 0
IsByte b = b < 256

-- Reading a word of `w` bytes off what has not been read yet.
unfoldable pub read_word : ℕ → List ℕ → Option (ℕ × List ℕ)
unfolding from_bytes
read_word w bytes =
    if ltb (length bytes) w then none else some (from_bytes (take w bytes), drop w bytes)

unfoldable pub to_word : ℤ → ℕ
to_word (pos n) = n % 2 ^ 64
to_word (negsuc n) = 2 ^ 64 - 1 - n % 2 ^ 64

unfoldable pub of_word : ℕ → ℤ
of_word n = if ltb n (2 ^ 63) then pos n else negsuc (2 ^ 64 - 1 - n)

-- The values of `std::int64_t`.
abbrev pub IsI64 : ℤ → Type 0
IsI64 z = (pos_part z < 2 ^ 63) × (neg_part z ≤ 2 ^ 63)

pub of_word-to_word : (z : ℤ) → IsI64 z → of_word (to_word z) ≡ z
unfolding of_word to_word
of_word-to_word (pos n) h = ground arith
of_word-to_word (negsuc n) h = ground arith

pub to_word-lt : (z : ℤ) → to_word z < 2 ^ 64
unfolding to_word
to_word-lt (pos n) = omega arith
to_word-lt (negsuc n) = omega arith

pub length-to_bytes : (w n : ℕ) → length (to_bytes w n) ≡ w
unfolding to_bytes
length-to_bytes zero n = refl
length-to_bytes (suc w) n = ap suc (length-to_bytes w (n / 256))

pub to_bytes-IsByte : (w n : ℕ) → All IsByte (to_bytes w n)
unfolding to_bytes
to_bytes-IsByte zero n = tt
to_bytes-IsByte (suc w) n = (omega arith, to_bytes-IsByte w (n / 256))

below_next : (w n : ℕ) → n < 256 ^ suc w → n / 256 < 256 ^ w
below_next w n h = omega arith

pub from_bytes-to_bytes : (w n : ℕ) → n < 256 ^ w → from_bytes (to_bytes w n) ≡ n
unfolding to_bytes from_bytes
from_bytes-to_bytes zero n h = omega arith
from_bytes-to_bytes (suc w) n h = omega (arith, from_bytes-to_bytes w (n / 256) (below_next w n h))

pub take_front : (n : ℕ) (xs ys : List ℕ) → length xs ≡ n → take n (xs ++ ys) ≡ xs
take_front zero [] ys h = refl
take_front zero (x ∷ xs) ys h = absurd (omega arith)
take_front (suc n) [] ys h = absurd (omega arith)
take_front (suc n) (x ∷ xs) ys h = ap (λ t. x ∷ t) (take_front n xs ys (omega arith))

pub drop_front : (n : ℕ) (xs ys : List ℕ) → length xs ≡ n → drop n (xs ++ ys) ≡ ys
drop_front zero [] ys h = refl
drop_front zero (x ∷ xs) ys h = absurd (omega arith)
drop_front (suc n) [] ys h = absurd (omega arith)
drop_front (suc n) (x ∷ xs) ys h = drop_front n xs ys (omega arith)

-- A word is read back, and what follows it is left.
pub read_word-to_bytes :
    (w n : ℕ) (rest : List ℕ) → n < 256 ^ w → read_word w (to_bytes w n ++ rest) ≡ some (n, rest)
unfolding read_word
read_word-to_bytes w n rest h = ground (
  arith,
  length-append (to_bytes w n) rest,
  length-to_bytes w n,
  take_front w (to_bytes w n) rest,
  drop_front w (to_bytes w n) rest,
  from_bytes-to_bytes w n,
)

pub read_word_short : (w : ℕ) (bytes : List ℕ) → length bytes < w → read_word w bytes ≡ none
unfolding read_word
read_word_short w bytes h = ground arith

-- What a read takes and what it gives.
pub read_word_takes :
    (w : ℕ) (bytes : List ℕ) {n : ℕ} {rest : List ℕ}
    → read_word w bytes ≡ some (n, rest)
    → (n ≡ from_bytes (take w bytes)) × (rest ≡ drop w bytes) × (w ≤ length bytes)
unfolding read_word
read_word_takes w bytes h = ground arith
