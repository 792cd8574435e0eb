-- ===== src/Auth/Frames.antt =====
-- Signed frames are let through, and frames of unknown accounts are not.
use mmperp.Prelude.{
  refl, Option, none, some, erase_self, false, ℕ, ◌≡◌, ap, ◌∙◌, List, ◌++◌, Bool, true, false,
  insert_self, length, length-append, take, drop, ltb, if◌then◌else◌, arith,
}
use mmperp.Auth.{
  Sodium, IsSignatureScheme, signed, sign, generate_keypair, verify_with_key, unregister_account,
  Authenticator, register_account, get_public_key, verify_with, verify, verify_frame,
}
use mmperp.Common.Bytes.{take_front, drop_front}

long_enough : (xs ys : List ℕ) → length xs ≡ 64 → ltb (length (xs ++ ys)) 64 ≡ false
long_enough xs ys h = ground (arith, length-append xs ys)

registered :
    (valid : List ℕ → List ℕ → List ℕ → Bool) (keys : Authenticator) (account : ℕ)
    (key message signature : List ℕ)
    → verify valid (register_account keys account key) account message signature
      ≡ valid key message signature
unfolding verify get_public_key register_account verify_with
registered valid keys account key message signature =
    ap (λ k. verify_with valid k message signature) (insert_self account key keys)

-- With any signature that is valid.
pub verify_frame_signed :
    (valid : List ℕ → List ℕ → List ℕ → Bool) (keys : Authenticator) (account : ℕ)
    (key header body signature : List ℕ)
    → length signature ≡ 64
    → valid key (header ++ body) signature ≡ true
    → verify_frame valid (register_account keys account key) header (signature ++ body) account
      ≡ true
unfolding verify_frame
verify_frame_signed valid keys account key header body signature l h =
    let payload = signature ++ body in
    let checked = verify valid (register_account keys account key) account in
    ap (λ b. if b then false else checked (header ++ drop 64 payload) (take 64 payload))
      (long_enough signature body l)
    ∙ (ap (λ d. checked (header ++ d) (take 64 payload)) (drop_front 64 signature body l)
        ∙ (ap (λ t. checked (header ++ body) t) (take_front 64 signature body l)
            ∙ (registered valid keys account key (header ++ body) signature ∙ h)))

apart : ¬ (false ≡ true)
apart h = cc

signed_lem :
    (out : List ℕ) (o : Option (List ℕ)) (signature : List ℕ)
    → signed out o ≡ (true, signature)
    → o ≡ some signature
signed_lem out none signature h = absurd (apart (ap (λ x. x.0) h))
signed_lem out (some x) signature h = ap some (ap (λ y. y.1) h)

forgotten :
    (valid : List ℕ → List ℕ → List ℕ → Bool) (keys : Authenticator) (account : ℕ)
    (message signature : List ℕ)
    → verify valid (unregister_account keys account) account message signature ≡ false
unfolding verify get_public_key unregister_account verify_with
forgotten valid keys account message signature =
    ap (λ k. verify_with valid k message signature) (erase_self account keys)

short_if : (b : Bool) (c : Bool) → c ≡ false → (if b then false else c) ≡ false
short_if true c h = refl
short_if false c h = h

-- A client generates a pair of keys, and signs a header and a body, with success. Once its account
-- has registered the public key, the frame with this header, and the signature followed by the body
-- as its payload, is let through; once the account has been taken out again, it is not.
pub verify_frame-sign :
    (s : Sodium) (keys : Authenticator) (account : ℕ) (random header body out signature : List ℕ)
    → IsSignatureScheme s
    → sign s (generate_keypair s random).1 (header ++ body) out ≡ (true, signature)
    → let registered_keys = register_account keys account (generate_keypair s random).0 in
      let valid = verify_with_key s in
      (verify_frame valid registered_keys header (signature ++ body) account ≡ true)
      × (verify_frame valid
            (unregister_account registered_keys account)
            header
            (signature ++ body)
            account
          ≡ false)
unfolding sign generate_keypair verify_with_key verify_frame
verify_frame-sign s keys account random header body out signature scheme h =
    let (public_key, secret_key) = s.crypto_sign_keypair random in
    let found = signed_lem out (s.crypto_sign_detached secret_key (header ++ body)) signature h in
    (
      verify_frame_signed s.crypto_sign_verify_detached keys account public_key header body
          signature (scheme.sized secret_key (header ++ body) signature found)
          (scheme.verified random (header ++ body) signature found),
      short_if (ltb (length (signature ++ body)) 64) _ (
          forgotten s.crypto_sign_verify_detached (register_account keys account public_key) account
            _ _),
    )
