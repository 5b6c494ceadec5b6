-- ===== src/Crypto/Keys/Checks.antt =====
-- The unit tests of crypto/key_management.rs, as functions that panic where an assertion fails.
use merabriar.Prelude.{ℕ, ◌+◌, ◌≡◌, refl, false, List, [], ◌∷◌, length, All, ◌==◌, arith}
use merabriar.Rust.Text.{Bytes}
use merabriar.Rust.Result.{Result, ok, unwrap, assert, ◌>>=◌}
use merabriar.Rust.Exec.{Exec}
use merabriar.Platform.{Platform, AgreementLaws, SigningLaws}
use merabriar.Crypto.State.{Crypto}
use merabriar.Crypto.Keys.{generate_identity_keys, generate_prekeys, prekeys_from}

-- The loop of `test_generate_prekeys`.
unfoldable pub expect_32_each : List (ℕ × Bytes × Bytes) → Result (Unit {0})
expect_32_each [] = ok tt
expect_32_each ((id, public, private) ∷ rest) =
    assert (length public == 32) >>= λ _. assert (length private == 32) >>= λ _. expect_32_each rest

module _ {Cipher KeyPair : Type 0} (p : Platform Cipher KeyPair) where
  unfoldable pub test_generate_identity_keys : Result Bytes → Bytes → Exec Crypto (Unit {0})
  test_generate_identity_keys pkcs8 prekey s =
      let (made, s') = generate_identity_keys p pkcs8 prekey s in
      (
        unwrap made >>= λ bundle. assert (length bundle.identity_public_key == 32) >>= λ _.
            assert (length bundle.signed_prekey == 32) >>= λ _.
            assert (length bundle.signature == 64),
        s',
      )

  -- over the ten secrets that the generator gives
  unfoldable pub test_generate_prekeys : List Bytes → Result (Unit {0})
  test_generate_prekeys secrets =
      let prekeys = generate_prekeys p secrets in
      assert (length prekeys == 10) >>= λ _. expect_32_each prekeys

module _ {Cipher KeyPair : Type 0} {p : Platform Cipher KeyPair} (dh : AgreementLaws p)
    (signing : SigningLaws p) where
  length-prekeys_from :
      (i : ℕ) (secrets : List Bytes) → length (prekeys_from p i secrets) ≡ length secrets
  unfolding prekeys_from
  length-prekeys_from i [] = refl
  length-prekeys_from i (x ∷ xs) = ground (arith, length-prekeys_from (i + 1) xs)

  expect-prekeys_from :
      (i : ℕ) (secrets : List Bytes)
      → All (λ x. length x ≡ 32) secrets
      → expect_32_each (prekeys_from p i secrets) ≡ ok tt
  unfolding prekeys_from expect_32_each
  expect-prekeys_from i [] h = refl
  expect-prekeys_from i (x ∷ xs) (h, hs) =
      rw (dh.length_public x, h, expect-prekeys_from (i + 1) xs hs)

  -- Both tests pass: the first wherever the lock of the keys is not poisoned and the generated key pair
  -- parses, the second on ten secrets of 32 bytes.
  key_tests_pass :
      (pkcs8 prekey : Bytes) (keypair : KeyPair) (secrets : List Bytes) (s : Crypto)
      → p.from_pkcs8 pkcs8 ≡ ok keypair
      → s.identity_keys.poisoned ≡ false
      → length secrets ≡ 10
      → All (λ x. length x ≡ 32) secrets
      → ((test_generate_identity_keys p (ok pkcs8) prekey s).0 ≡ ok tt)
        × (test_generate_prekeys p secrets ≡ ok tt)
  unfolding test_generate_identity_keys test_generate_prekeys generate_identity_keys
      generate_prekeys
  key_tests_pass pkcs8 prekey keypair secrets s parses healthy ten each = (
    rw (
      parses,
      healthy,
      signing.length_public_key keypair,
      dh.length_public prekey,
      signing.length_signature keypair (p.x25519_public prekey),
    ),
    rw (length-prekeys_from 0 secrets, ten, expect-prekeys_from 0 secrets each),
  )
