-- ===== src/Telemetry/Buckets.antt =====
-- Which values a bucket counts.
use mmperp.Prelude.{
  dec_lt, get_or, ℕ, zero, suc, ◌+◌, ◌-◌, ◌*◌, ◌/◌, ◌%◌, ◌^◌, ◌≤◌, ◌<◌, ◌≡◌, ◌⊎◌, inl, inr, refl,
  sym, ap, ◌∙◌, subst, Bool, true, false, List, [], ◌∷◌, arith, length, replicate, ltb, ◌==◌,
  if◌then◌else◌, Bool-cases,
}
use mmperp.Prelude.Int.{ℤ, pos, pos_part, leb_ℤ}
use mmperp.Telemetry.{
  num_buckets, bit_width, bucket_index, StreamingHistogram, empty_histogram, bump, record_value,
}

is_zero : (n : ℕ) → (n == 0) ≡ true → n < 1
is_zero n h = ground arith

doubled : (n b : ℕ) → 2 ^ b ≤ 2 * (n / 2) → 2 ^ suc b ≤ 2 * n
doubled n b h = omega arith

bit_width_zero : (fuel : ℕ) → bit_width fuel 0 ≡ 0
unfolding bit_width
bit_width_zero zero = refl
bit_width_zero (suc fuel) = refl

halved : (n b : ℕ) → n / 2 < 2 ^ b → n < 2 ^ suc b
halved n b h = omega arith

bit_width-above : (fuel n : ℕ) → n < 2 ^ fuel → n < 2 ^ bit_width fuel n
unfolding bit_width
bit_width-above zero n h = h
bit_width-above (suc fuel) n h = elim (Bool-cases (n == 0)) [
  | inl zero_test ↦ rw zero_test (is_zero n zero_test)
  | inr more ↦
      rw more (halved n (bit_width fuel (n / 2)) (bit_width-above fuel (n / 2) (omega arith)))
]

bit_width-below : (fuel n : ℕ) → n < 2 ^ fuel → 0 < n → 2 ^ bit_width fuel n ≤ 2 * n
unfolding bit_width
bit_width-below zero n h p = absurd (omega arith)
bit_width-below (suc fuel) n h p = elim (Bool-cases (n == 0)) [
  | inl zero_test ↦ absurd (omega (arith, is_zero n zero_test))
  | inr more ↦ rw more (elim (dec_lt 0 (n / 2)) [
    | yes half ↦
        doubled n (bit_width fuel (n / 2)) (bit_width-below fuel (n / 2) (omega arith) half)
    | no none_left ↦
        let e : n / 2 ≡ 0 = omega arith in
        subst (λ k. 2 ^ suc (bit_width fuel k) ≤ 2 * n) (sym e)
          (rw (bit_width_zero fuel) (omega arith))
  ])
]

positive_bits : (b n : ℕ) → 0 < n → n < 2 ^ b → 0 < b
positive_bits zero n p h = absurd (omega arith)
positive_bits (suc b) n p h = omega arith

power_grows : (a b : ℕ) → a ≤ b → 2 ^ a ≤ 2 ^ b
power_grows zero zero h = omega arith
power_grows zero (suc b) h = omega (arith, power_grows zero b)
power_grows (suc a) zero h = absurd (omega arith)
power_grows (suc a) (suc b) h = omega (arith, power_grows a b)

at_least : (b : ℕ) → ltb b 29 ≡ false → 29 ≤ b
at_least b h = ground arith

is_positive : (n : ℕ) → 0 < n → leb_ℤ (pos n) (pos 0) ≡ false
is_positive n p = ground arith

capped_bounds :
    (b n : ℕ)
    → 0 < n
    → n < 2 ^ b
    → 2 ^ b ≤ 2 * n
    → let i = if ltb b (num_buckets - 1) then b else num_buckets - 1 in
      (0 < i) × (i < num_buckets) × (2 ^ i ≤ 2 * n) × ((i ≡ num_buckets - 1) ⊎ (n < 2 ^ i))
capped_bounds b n p h k = elim (Bool-cases (ltb b (num_buckets - 1))) [
  | inl small ↦ rw small (positive_bits b n p h, ground arith, k, inr h)
  | inr large ↦
      rw large
        (omega arith, omega arith, omega (arith, power_grows 29 b (at_least b large)), inl refl)
]

-- A positive value of 63 bits is counted in a bucket i of at least 1; it is at least 2^(i-1), and less
-- than 2^i unless the bucket is the last.
pub bucket_index-bounds :
    (n : ℕ)
    → 0 < n
    → n < 2 ^ 63
    → let i = bucket_index (pos n) in
      (0 < i) × (i < num_buckets) × (2 ^ i ≤ 2 * n) × ((i ≡ num_buckets - 1) ⊎ (n < 2 ^ i))
unfolding bucket_index
bucket_index-bounds n p h = rw (is_positive n p) (
    capped_bounds (bit_width 64 n) n p (bit_width-above 64 n (omega arith))
      (bit_width-below 64 n (omega arith) p))

bumped :
    (i j : ℕ) (bs : List ℕ)
    → i < length bs
    → get_or (bump i bs) j 0 ≡ (if i == j then (get_or bs j 0 + 1) % 2 ^ 64 else get_or bs j 0)
unfolding bump
bumped i j [] l = absurd (omega arith)
bumped zero zero (b ∷ bs) l = refl
bumped zero (suc j) (b ∷ bs) l = ground arith
bumped (suc i) zero (b ∷ bs) l = ground arith
bumped (suc i) (suc j) (b ∷ bs) l = ground (arith, bumped i j bs)

length-bump : (i : ℕ) (bs : List ℕ) → length (bump i bs) ≡ length bs
unfolding bump
length-bump i [] = refl
length-bump zero (b ∷ bs) = refl
length-bump (suc i) (b ∷ bs) = ap suc (length-bump i bs)

unfoldable pub record_all : StreamingHistogram → List ℤ → StreamingHistogram
record_all h [] = h
record_all h (v ∷ vs) = record_all (record_value h v) vs

-- How many values belong in the bucket.
unfoldable pub values_in : ℕ → List ℤ → ℕ
values_in i [] = 0
values_in i (v ∷ vs) = if bucket_index v == i then suc (values_in i vs) else values_in i vs

chosen_lt :
    (b : Bool) (k : ℕ)
    → (if b then 0 else if ltb k (num_buckets - 1) then k else num_buckets - 1) < num_buckets
chosen_lt true k = omega arith
chosen_lt false k = ground arith

bucket_index-lt : (v : ℤ) → bucket_index v < num_buckets
unfolding bucket_index
bucket_index-lt v = chosen_lt (leb_ℤ v (pos 0)) (bit_width 64 (pos_part v))

tally :
    (b : Bool) (x c : ℕ)
    → ((if b then (x + 1) % 2 ^ 64 else x) + c) % 2 ^ 64 ≡ (x + (if b then suc c else c)) % 2 ^ 64
tally true x c = omega arith
tally false x c = refl

record_all-values_in_from :
    (h : StreamingHistogram) (vs : List ℤ) (i : ℕ)
    → length h.buckets ≡ num_buckets
    → get_or (record_all h vs).buckets i 0 % 2 ^ 64
      ≡ (get_or h.buckets i 0 + values_in i vs) % 2 ^ 64
unfolding record_all values_in record_value
record_all-values_in_from h [] i l = omega arith
record_all-values_in_from h (v ∷ vs) i l =
    let more = bumped (bucket_index v) i h.buckets (omega (arith, bucket_index-lt v)) in
    record_all-values_in_from (record_value h v) vs i (length-bump (bucket_index v) h.buckets ∙ l)
    ∙ ap (λ b. (b + values_in i vs) % 2 ^ 64) more
    ∙ tally (bucket_index v == i) (get_or h.buckets i 0) (values_in i vs)

none_yet : (i n : ℕ) → get_or {A = ℕ} (replicate n 0) i 0 ≡ 0
none_yet i zero = refl
none_yet zero (suc n) = refl
none_yet (suc i) (suc n) = none_yet i n

-- A fresh histogram that records some values counts, in each bucket, the values that belong there,
-- modulo 2^64.
pub record_all-values_in :
    (vs : List ℤ) (i : ℕ)
    → get_or (record_all empty_histogram vs).buckets i 0 % 2 ^ 64 ≡ values_in i vs % 2 ^ 64
record_all-values_in vs i =
    omega (arith, record_all-values_in_from empty_histogram vs i refl, none_yet i num_buckets)
