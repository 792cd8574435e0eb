-- ===== src/Auth.antt =====
-- libs/auth/src/authenticator.cpp: the keys of the accounts, the check of a signed frame, and what a
-- client signs with. The verification of a signature by libsodium is a parameter, of a key, a message
-- and a signature; so are its other calls, with what they promise.
pub mod Frames
mod Tests
use mmperp.Prelude.{
  ℕ, ◌≡◌, List, ◌++◌, Bool, true, false, Option, none, some, Store, insert, erase, length, take,
  drop, ltb, if◌then◌else◌,
}

abbrev pub signature_size : ℕ
signature_size = 64

abbrev pub Authenticator : Type 0
Authenticator = Store (List ℕ)

unfoldable pub register_account : Authenticator → ℕ → List ℕ → Authenticator
register_account keys account public_key = insert account public_key keys

unfoldable pub unregister_account : Authenticator → ℕ → Authenticator
unregister_account keys account = erase account keys

unfoldable pub get_public_key : Authenticator → ℕ → Option (List ℕ)
get_public_key keys account = keys account

abbrev is_some : Option (List ℕ) → Bool
is_some none = false
is_some (some key) = true

unfoldable pub has_account : Authenticator → ℕ → Bool
has_account keys account = is_some (keys account)

unfoldable pub verify_with :
    (List ℕ → List ℕ → List ℕ → Bool) → Option (List ℕ) → List ℕ → List ℕ → Bool
verify_with valid none message signature = false
verify_with valid (some key) message signature = valid key message signature

unfoldable pub verify :
    (List ℕ → List ℕ → List ℕ → Bool) → Authenticator → ℕ → List ℕ → List ℕ → Bool
unfolding verify_with get_public_key
verify valid keys account message signature =
    verify_with valid (get_public_key keys account) message signature

unfoldable pub verify_frame :
    (List ℕ → List ℕ → List ℕ → Bool) → Authenticator → List ℕ → List ℕ → ℕ → Bool
verify_frame valid keys header payload account =
    if ltb (length payload) signature_size
    then false
    else verify valid keys account (header ++ drop signature_size payload)
        (take signature_size payload)

-- The calls of libsodium. The pair of a public and a secret key depends on the random bytes that the
-- library draws; a signature is made of a secret key and a message, or the call fails.
pub record Sodium : Type 0 where
  pub crypto_sign_keypair : List ℕ → List ℕ × List ℕ
  pub crypto_sign_detached : List ℕ → List ℕ → Option (List ℕ)
  pub crypto_sign_verify_detached : List ℕ → List ℕ → List ℕ → Bool

-- What its documentation says of them: a signature has 64 bytes, and the public key of its pair
-- verifies it.
pub record IsSignatureScheme (s : Sodium) : Type 0 where
  pub sized :
      (secret message signature : List ℕ)
      → s.crypto_sign_detached secret message ≡ some signature
      → length signature ≡ signature_size
  pub verified :
      (random message signature : List ℕ)
      → s.crypto_sign_detached (s.crypto_sign_keypair random).1 message ≡ some signature
      → s.crypto_sign_verify_detached (s.crypto_sign_keypair random).0 message signature ≡ true

unfoldable pub verify_with_key : Sodium → List ℕ → List ℕ → List ℕ → Bool
verify_with_key s public_key message signature =
    s.crypto_sign_verify_detached public_key message signature

-- Whether the signature that is given back is one.
abbrev pub signed : List ℕ → Option (List ℕ) → Bool × List ℕ
signed out none = (false, out)
signed out (some signature) = (true, signature)

unfoldable pub sign : Sodium → List ℕ → List ℕ → List ℕ → Bool × List ℕ
sign s secret_key message out_signature =
    signed out_signature (s.crypto_sign_detached secret_key message)

unfoldable pub generate_keypair : Sodium → List ℕ → List ℕ × List ℕ
generate_keypair s random = s.crypto_sign_keypair random
