-- ===== src/Auth/Tests.antt =====
-- A signed frame, with a toy scheme: the signature of a message is its length, 64 times.
use mmperp.Prelude.{
  ℕ, ◌==◌, ◌≡◌, refl, true, false, some, List, [], ◌∷◌, ◌++◌, length, replicate, get_or, vacant,
  arith, ap, ◌∙◌, sym,
}
use mmperp.Auth.{
  Sodium, IsSignatureScheme, sign, generate_keypair, verify_with_key, register_account,
  unregister_account, verify_frame,
}
use mmperp.Auth.Frames.{verify_frame-sign}

abbrev toy : Sodium
toy = record {
  crypto_sign_keypair = λ random. (random, random);
  crypto_sign_detached = λ secret message. some (replicate 64 (length message));
  crypto_sign_verify_detached = λ key message signature. get_or signature 0 0 == length message;
}

some_inj : (xs ys : List ℕ) → some xs ≡ some ys → xs ≡ ys
some_inj xs ys h = cc

same : (n : ℕ) → (n == n) ≡ true
same n = ground arith

toy-IsSignatureScheme : IsSignatureScheme toy
toy-IsSignatureScheme = record {
  sized = λ secret message signature h. ap length (sym (some_inj _ _ h));
  verified = λ random message signature h.
      ap (λ x. get_or x 0 0 == length message) (sym (some_inj _ _ h)) ∙ same (length message);
}

verify_frame-sign_example :
    let registered_keys = register_account vacant 3 (8 ∷ []) in
    let valid = verify_with_key toy in
    (verify_frame valid registered_keys (1 ∷ 2 ∷ []) (replicate 64 3 ++ 9 ∷ []) 3 ≡ true)
    × (verify_frame valid
          (unregister_account registered_keys 3)
          (1 ∷ 2 ∷ [])
          (replicate 64 3 ++ 9 ∷ [])
          3
        ≡ false)
unfolding sign generate_keypair
verify_frame-sign_example =
    verify_frame-sign toy vacant 3 (8 ∷ []) (1 ∷ 2 ∷ []) (9 ∷ []) [] (replicate 64 3)
      toy-IsSignatureScheme refl
