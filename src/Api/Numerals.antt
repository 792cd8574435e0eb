-- ===== src/Api/Numerals.antt =====
-- The numbers in the router's answers can be read back.
use mmperp.Prelude.{
  ℕ, zero, suc, ◌+◌, ◌-◌, ◌*◌, ◌/◌, ◌%◌, ◌^◌, ◌<◌, ◌≡◌, inl, inr, refl, ap, ◌∙◌, true, List, [],
  ◌∷◌, ◌++◌, arith, ltb, ◌==◌, if◌then◌else◌, Bool-cases,
}
use mmperp.Prelude.Texts.{codes}
use mmperp.Api.{ApiRouter, digit, digits_on, to_hex, node_status, eth_block_number, rpc_result}

unfoldable pub hex_value : ℕ → ℕ
hex_value c = if ltb c b'a' then c - b'0' else c - b'a' + 10

-- The number that hexadecimal digits stand for, behind those read already.
unfoldable pub hex_number : ℕ → List ℕ → ℕ
unfolding hex_value
hex_number n [] = n
hex_number n (c ∷ cs) = hex_number (n * 16 + hex_value c) cs

digit_back : (d : ℕ) → d < 16 → hex_value (digit d) ≡ d
unfolding digit hex_value
digit_back d h = ground arith

last_digit :
    (n : ℕ) (later : List ℕ) → hex_number (n / 16) (digit (n % 16) ∷ later) ≡ hex_number n later
unfolding hex_number
last_digit n later =
    let whole : n / 16 * 16 + hex_value (digit (n % 16)) ≡ n =
      omega (arith, digit_back (n % 16) (omega arith)) in
    ap (λ k. hex_number k later) whole

digits_back :
    (fuel n : ℕ) (later : List ℕ)
    → n < 16 ^ suc fuel
    → hex_number 0 (digits_on (suc fuel) 16 n later) ≡ hex_number n later
unfolding digits_on
digits_back zero n later h =
    let e : 0 ≡ n / 16 = omega arith in
    let one : (n / 16 == 0) ≡ true = ground arith in
    rw one (ap (λ k. hex_number k (digit (n % 16) ∷ later)) e ∙ last_digit n later)
digits_back (suc fuel) n later h = elim (Bool-cases (n / 16 == 0)) [
  | inl one ↦
      let e : 0 ≡ n / 16 = ground arith in
      rw one (ap (λ k. hex_number k (digit (n % 16) ∷ later)) e ∙ last_digit n later)
  | inr more ↦
      rw more
        (digits_back fuel (n / 16) (digit (n % 16) ∷ later) (omega arith) ∙ last_digit n later)
]

-- The answer to `eth_blockNumber` is `0x` and the block number in hexadecimal digits, for any
-- block number of 64 bits.
pub rpc_result-hex_number :
    (r : ApiRouter)
    → (node_status r).block_number < 2 ^ 64
    → (digits : List ℕ) × (rpc_result r (codes "eth_blockNumber") ≡ codes "0x" ++ digits)
      × (hex_number 0 digits ≡ (node_status r).block_number)
unfolding rpc_result eth_block_number to_hex hex_number
rpc_result-hex_number r h =
    let n = (node_status r).block_number in
    (digits_on 16 16 n [], refl, digits_back 15 n [] (omega arith) ∙ zero_more n)
  where
    zero_more : (n : ℕ) → hex_number n [] ≡ n
    zero_more n = refl
