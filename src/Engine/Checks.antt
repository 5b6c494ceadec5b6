-- ===== src/Engine/Checks.antt =====
-- The unit test of lib.rs, as a function that panics where an assertion fails.
use merabriar.Prelude.{◌≡◌, Bool, false, not, length, ◌==◌}
use merabriar.Rust.Text.{Bytes}
use merabriar.Rust.Result.{Result, ok, unwrap, assert, ◌>>=◌}
use merabriar.Rust.Exec.{Exec}
use merabriar.Platform.{Platform, AgreementLaws, SigningLaws}
use merabriar.Crypto.Keys
use merabriar.Engine.{Core, generate_identity_keys}

abbrev is_empty : Bytes → Bool
is_empty v = length v == 0

module _ {Cipher KeyPair Connection : Type 0} (p : Platform Cipher KeyPair) where
  unfoldable pub test_key_generation : Result Bytes → Bytes → Exec (Core Connection) (Unit {0})
  test_key_generation pkcs8 prekey s =
      let (made, s') = generate_identity_keys p pkcs8 prekey s in
      (
        unwrap made >>= λ keys. assert (not (is_empty keys.identity_public_key)) >>= λ _.
            assert (not (is_empty keys.signed_prekey)) >>= λ _.
            assert (not (is_empty keys.signature)),
        s',
      )

module _ {Cipher KeyPair Connection : Type 0} {p : Platform Cipher KeyPair} (dh : AgreementLaws p)
    (signing : SigningLaws p) where
  -- The test passes wherever the lock of the keys is not poisoned and the generated key pair parses.
  core_test_passes :
      (pkcs8 prekey : Bytes) (keypair : KeyPair) (s : Core Connection)
      → p.from_pkcs8 pkcs8 ≡ ok keypair
      → s.crypto.identity_keys.poisoned ≡ false
      → (test_key_generation p (ok pkcs8) prekey s).0 ≡ ok tt
  unfolding test_key_generation generate_identity_keys Keys.generate_identity_keys
  core_test_passes pkcs8 prekey keypair s parses healthy = rw (
    parses,
    healthy,
    signing.length_public_key keypair,
    dh.length_public prekey,
    signing.length_signature keypair (p.x25519_public prekey),
  )
