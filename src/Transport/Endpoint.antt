-- ===== src/Transport/Endpoint.antt =====
-- libs/ingest/src/transport.cpp: `parse_endpoint`, which matches
-- `(quic|udp)://([^:]+):(\d+)` against the codes of a text.
use mmperp.Prelude.{
  ℕ, ◌+◌, ◌-◌, ◌*◌, ◌%◌, ◌^◌, Bool, true, ◌&&◌, ◌||◌, not, Option, none, some, List, [], ◌∷◌, ltb,
  leb, ◌==◌, if◌then◌else◌, is_nil,
}
use mmperp.Prelude.Texts.{same, codes}

pub record EndpointInfo : Type 0 where
  pub host : List ℕ
  pub port : ℕ

-- `overflowed` is the exception that `std::stoi` throws above the largest `int`.
pub data Endpoint : Type 0 where
  parsed : EndpointInfo → Endpoint
  invalid : Endpoint
  overflowed : Endpoint

abbrev pub quic_scheme : List ℕ
quic_scheme = codes "quic://"

abbrev pub udp_scheme : List ℕ
udp_scheme = codes "udp://"

-- What follows a prefix.
unfoldable pub strip_prefix : List ℕ → List ℕ → Option (List ℕ)
strip_prefix [] text = some text
strip_prefix (p ∷ ps) [] = none
strip_prefix (p ∷ ps) (c ∷ text) = if p == c then strip_prefix ps text else none

abbrev first_of {ℓ} : {A : Type ℓ} → Option A → Option A → Option A
first_of none other = other
first_of (some a) other = some a

unfoldable pub strip_scheme : List ℕ → Option (List ℕ)
unfolding strip_prefix
strip_scheme uri = first_of (strip_prefix quic_scheme uri) (strip_prefix udp_scheme uri)

-- The text before the first colon and the text behind it; `none` without a colon.
unfoldable pub split_colon : List ℕ → Option (List ℕ × List ℕ)
split_colon [] = none
split_colon (c ∷ text) =
    let later = split_colon text in
    if c == b':'
    then some ([], text)
    else elim later [ none ↦ none | some (h, p) ↦ some (c ∷ h, p) ]

abbrev pub is_digit : ℕ → Bool
is_digit c = leb b'0' c && leb c b'9'

abbrev pub all_digits : List ℕ → Bool
all_digits [] = true
all_digits (c ∷ text) = is_digit c && all_digits text

unfoldable pub decimal : ℕ → List ℕ → ℕ
decimal n [] = n
decimal n (c ∷ text) = decimal (n * 10 + (c - b'0')) text

unfoldable pub endpoint_at : List ℕ → List ℕ → Endpoint
unfolding decimal
endpoint_at host port =
    if is_nil host
    then invalid
    else if is_nil port
    then invalid
    else if not (all_digits port)
    then invalid
    else if ltb 2147483647 (decimal 0 port)
    then overflowed
    else parsed record { host = host; port = decimal 0 port % 2 ^ 16 }

abbrev at_split : Option (List ℕ × List ℕ) → Endpoint
at_split none = invalid
at_split (some (host, port)) = endpoint_at host port

abbrev at_scheme : Option (List ℕ) → Endpoint
at_scheme none = invalid
at_scheme (some text) = at_split (split_colon text)

unfoldable pub parse_endpoint : List ℕ → Endpoint
unfolding strip_scheme split_colon endpoint_at
parse_endpoint uri = at_scheme (strip_scheme uri)

-- `0.0.0.0`, or no host at all.
abbrev pub any_host : List ℕ → Bool
any_host host = same host (codes "0.0.0.0") || is_nil host
