-- ===== src/Node/Signed.antt =====
-- The payload of a signed frame: the authenticator takes its first 64 bytes as the signature, and the
-- loops decode the whole of it.
use mmperp.Prelude.{
  ℕ, zero, suc, ◌≤◌, ◌≡◌, refl, sym, ap, ◌∙◌, Bool, true, false, some, List, [], ◌∷◌, ◌++◌, arith,
  length, length-append, length-drop, take-append-drop, take, drop, ltb, if◌then◌else◌,
}
use mmperp.Prelude.{length-take}
use mmperp.Common.Bytes.{from_bytes, read_word}
use mmperp.Auth.{Authenticator, signature_size, verify, verify_frame}
use mmperp.Ingress.Messages.{new_order_encoded_size, read_new_order, decode_new_order}

take_prefix : (n : ℕ) (xs ys : List ℕ) → n ≤ length xs → take n (xs ++ ys) ≡ take n xs
take_prefix zero [] ys h = refl
take_prefix zero (x ∷ xs) ys h = refl
take_prefix (suc n) [] ys h = absurd (omega arith)
take_prefix (suc n) (x ∷ xs) ys h = ap (λ t. x ∷ t) (take_prefix n xs ys (omega arith))

drop_prefix : (n : ℕ) (xs ys : List ℕ) → n ≤ length xs → drop n (xs ++ ys) ≡ drop n xs ++ ys
drop_prefix zero [] ys h = refl
drop_prefix zero (x ∷ xs) ys h = refl
drop_prefix (suc n) [] ys h = absurd (omega arith)
drop_prefix (suc n) (x ∷ xs) ys h = drop_prefix n xs ys (omega arith)

read_word_prefix :
    (w : ℕ) (xs ys : List ℕ)
    → w ≤ length xs
    → read_word w (xs ++ ys) ≡ some (from_bytes (take w xs), drop w xs ++ ys)
unfolding read_word
read_word_prefix w xs ys h =
    ground (arith, length-append xs ys, take_prefix w xs ys, drop_prefix w xs ys)

read_word_long :
    (w : ℕ) (xs : List ℕ)
    → w ≤ length xs
    → read_word w xs ≡ some (from_bytes (take w xs), drop w xs)
unfolding read_word
read_word_long w xs h = ground arith

read_prefix :
    (xs ys : List ℕ)
    → new_order_encoded_size ≤ length xs
    → read_new_order (xs ++ ys) ≡ read_new_order xs
unfolding read_new_order
read_prefix xs ys h =
    let d1 = length-drop 1 xs in
    let d8 = length-drop 8 (drop 1 xs) in
    let d16 = length-drop 8 (drop 8 (drop 1 xs)) in
    rw
      (
        read_word_prefix 1 xs ys (omega arith),
        read_word_prefix 8 (drop 1 xs) ys (omega (arith, d1)),
        read_word_prefix 8 (drop 8 (drop 1 xs)) ys (omega (arith, d1, d8)),
        read_word_prefix 2 (drop 8 (drop 8 (drop 1 xs))) ys (omega (arith, d1, d8, d16)),
        read_word_long 1 xs (omega arith),
        read_word_long 8 (drop 1 xs) (omega (arith, d1)),
        read_word_long 8 (drop 8 (drop 1 xs)) (omega (arith, d1, d8)),
        read_word_long 2 (drop 8 (drop 8 (drop 1 xs))) (omega (arith, d1, d8, d16)),
      )
      refl

decode_prefix :
    (xs ys : List ℕ)
    → new_order_encoded_size ≤ length xs
    → decode_new_order (xs ++ ys) ≡ decode_new_order xs
unfolding decode_new_order
decode_prefix xs ys h = ground (arith, length-append xs ys, read_prefix xs ys h)

-- Not too short for a signature.
checked_length : (short checked : Bool) → (if short then false else checked) ≡ true → short ≡ false
checked_length true checked h = sym h
checked_length false checked h = refl

signed_length :
    (valid : List ℕ → List ℕ → List ℕ → Bool) (keys : Authenticator) (header payload : List ℕ)
    (account : ℕ)
    → verify_frame valid keys header payload account ≡ true
    → signature_size ≤ length payload
unfolding verify_frame
signed_length valid keys header payload account h =
    let message = header ++ drop signature_size payload in
    let short =
      checked_length (ltb (length payload) signature_size)
        (verify valid keys account message (take signature_size payload)) h in
    ground arith

-- A payload that the frame authenticator lets through starts with the signature, and the order that
-- is decoded from it is the one that the signature's bytes read as: it does not depend on the message
-- that was signed.
pub verify_frame-decode_new_order :
    (valid : List ℕ → List ℕ → List ℕ → Bool) (keys : Authenticator) (header payload : List ℕ)
    (account : ℕ)
    → verify_frame valid keys header payload account ≡ true
    → decode_new_order payload ≡ decode_new_order (take signature_size payload)
verify_frame-decode_new_order valid keys header payload account h =
    let l = signed_length valid keys header payload account h in
    ap decode_new_order (sym (take-append-drop 64 payload))
    ∙ decode_prefix (take 64 payload) (drop 64 payload) (omega (arith, length-take 64 payload))
