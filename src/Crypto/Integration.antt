-- ===== src/Crypto/Integration.antt =====
-- Tests of rust_core/tests/integration_tests.rs on keys, sessions and encryption, as functions that panic where an
-- assertion fails. What the random generators give is an argument of each.
pub mod Suite
pub mod Names
pub mod Single
pub mod Lifecycle
pub mod Passes
pub mod Disturbed
use merabriar.Prelude.{
  ◌+◌, ◌-◌, Bool, true, false, not, Option, none, some, List, [], ◌∷◌, length, take, replicate,
  ◌++◌, ltb, leb, ite, ◌==◌,
}
use merabriar.Rust.Text.{Bytes, Text, text, Text_discrete}
use merabriar.Rust.Result.{Result, ok, err, panic, unwrap, assert}
use merabriar.Rust.Exec.{Exec, lift, pure, ◌>>=◌, ◌>>◌}
use merabriar.Platform.{Platform}
use merabriar.Crypto.State.{Crypto, KeyBundle, PublicKeyBundle}
use merabriar.Crypto.Keys.{generate_identity_keys, get_public_key_bundle}
use merabriar.Crypto.Sessions.{init_session, has_session}
use merabriar.Crypto.Encryption.{encrypt_message, decrypt_message}
use merabriar.Crypto.Encryption.Checks.{unwrapped}

abbrev pub same_bytes : Bytes → Bytes → Bool
same_bytes a b = ite (Text_discrete a b) true false

abbrev pub is_none : Option Bytes → Bool
is_none none = true
is_none (some b) = false

-- `assert!` of a test of the state
abbrev pub check : (Crypto → Bool) → Exec Crypto (Unit {0})
check f s = (assert (f s), s)

abbrev pub failed : {A : Type 0} → Result A → Result (Unit {0})
failed (ok a) = panic
failed (err e) = ok tt
failed panic = panic

-- `assert!(call.is_err())`
abbrev pub refuses : {A : Type 0} → Exec Crypto A → Exec Crypto (Unit {0})
refuses f s = let (r, s') = f s in (failed r, s')

module _ {Cipher KeyPair : Type 0} (p : Platform Cipher KeyPair) where
  -- `test_get_public_key_bundle_after_generation` after its first line.
  unfoldable pub expect_published : KeyBundle → Exec Crypto (Unit {0})
  expect_published bundle = do
    pub_bundle ← unwrapped (get_public_key_bundle p)
    lift (assert (same_bytes pub_bundle.identity_public_key bundle.identity_public_key))
    lift (assert (same_bytes pub_bundle.signed_prekey bundle.signed_prekey))
    lift (assert (same_bytes pub_bundle.signature bundle.signature))
    lift (assert (is_none pub_bundle.one_time_prekey))

module _ {Cipher KeyPair : Type 0} (p : Platform Cipher KeyPair) (pkcs8 : Result Bytes)
    (prekey : Bytes) where
  unfoldable pub test_generate_identity_keys_returns_valid_bundle : Exec Crypto (Unit {0})
  test_generate_identity_keys_returns_valid_bundle = do
    bundle ← unwrapped (generate_identity_keys p pkcs8 prekey)
    lift (assert (length bundle.identity_public_key == 32))
    lift (assert (length bundle.signed_prekey == 32))
    lift (assert (length bundle.signature == 64))

  unfoldable pub test_get_public_key_bundle_after_generation : Exec Crypto (Unit {0})
  unfolding expect_published
  test_get_public_key_bundle_after_generation = do
    bundle ← unwrapped (generate_identity_keys p pkcs8 prekey)
    expect_published p bundle

  -- How most of the tests begin.
  unfoldable pub generate_and_publish : Exec Crypto PublicKeyBundle
  generate_and_publish = do
    unwrapped (generate_identity_keys p pkcs8 prekey)
    unwrapped (get_public_key_bundle p)

  unfoldable pub test_multiple_sessions : Exec Crypto (Unit {0})
  unfolding generate_and_publish
  test_multiple_sessions = do
    pub_bundle ← generate_and_publish
    unwrapped (init_session p (text "bob") pub_bundle)
    unwrapped (init_session p (text "charlie") pub_bundle)
    unwrapped (init_session p (text "dave") pub_bundle)
    check (has_session (text "bob"))
    check (has_session (text "charlie"))
    check (has_session (text "dave"))
    check (λ s. not (has_session (text "eve") s))

  unfoldable pub test_encrypt_empty_plaintext : Bytes → Exec Crypto (Unit {0})
  unfolding generate_and_publish
  test_encrypt_empty_plaintext nonce = do
    pub_bundle ← generate_and_publish
    unwrapped (init_session p (text "enc_empty_user") pub_bundle)
    ciphertext ← unwrapped (encrypt_message p (text "enc_empty_user") [] nonce)
    lift (assert (leb (12 + 16) (length ciphertext)))

  unfoldable pub test_decrypt_invalid_ciphertext : Exec Crypto (Unit {0})
  unfolding generate_and_publish
  test_decrypt_invalid_ciphertext = do
    pub_bundle ← generate_and_publish
    unwrapped (init_session p (text "dec_invalid_user") pub_bundle)
    refuses (decrypt_message p (text "dec_invalid_user") (replicate 10 0))

  unfoldable pub test_ciphertext_format : Bytes → Exec Crypto (Unit {0})
  unfolding generate_and_publish
  test_ciphertext_format nonce = do
    pub_bundle ← generate_and_publish
    unwrapped (init_session p (text "format_test_user") pub_bundle)
    ciphertext ← unwrapped (encrypt_message p (text "format_test_user") (text "Test format") nonce)
    lift (assert (length (take 12 ciphertext) == 12))
    lift (assert (leb (length (text "Test format") + 16) (length ciphertext - 12)))

abbrev pub succeeded : {A : Type 0} → Result A → Result (Unit {0})
succeeded (ok a) = ok tt
succeeded (err e) = panic
succeeded panic = panic

-- `assert!(call.is_ok())`
abbrev pub succeeds : {A : Type 0} → Exec Crypto A → Exec Crypto (Unit {0})
succeeds f s = let (r, s') = f s in (succeeded r, s')

-- The texts with a character outside ASCII, as bytes.
abbrev pub hello_earth : Text
hello_earth = text "Hello, World! " ++ (240 ∷ 159 ∷ 140 ∷ 141 ∷ [])

abbrev pub end_to_end : Text
end_to_end = text "End-to-end test message " ++ (240 ∷ 159 ∷ 148 ∷ 144 ∷ [])

module _ {Cipher KeyPair : Type 0} (p : Platform Cipher KeyPair) (pkcs8 : Result Bytes)
    (prekey : Bytes) where
  -- over two key generations
  unfoldable pub test_session_init_and_check : Result Bytes → Bytes → Exec Crypto (Unit {0})
  test_session_init_and_check pkcs8' prekey' = do
    unwrapped (generate_identity_keys p pkcs8 prekey)
    recipient_bundle ← unwrapped (generate_identity_keys p pkcs8' prekey')
    recipient_pub ← unwrapped (get_public_key_bundle p)
    succeeds (init_session p (text "alice") recipient_pub)
    check (has_session (text "alice"))
    check (λ s. not (has_session (text "unknown_user") s))

  unfoldable pub test_encrypt_message_produces_ciphertext : Bytes → Exec Crypto (Unit {0})
  unfolding generate_and_publish
  test_encrypt_message_produces_ciphertext nonce = do
    pub_bundle ← generate_and_publish p pkcs8 prekey
    unwrapped (init_session p (text "enc_test_user") pub_bundle)
    ciphertext ← unwrapped (encrypt_message p (text "enc_test_user") hello_earth nonce)
    lift (assert (leb (12 + 16) (length ciphertext)))
    lift (assert (not (same_bytes ciphertext hello_earth)))

  unfoldable pub test_full_lifecycle_keygen_to_encrypt : Bytes → Exec Crypto (Unit {0})
  test_full_lifecycle_keygen_to_encrypt nonce = do
    bundle ← unwrapped (generate_identity_keys p pkcs8 prekey)
    lift (assert (not (length bundle.identity_public_key == 0)))
    pub_bundle ← unwrapped (get_public_key_bundle p)
    lift (assert (same_bytes pub_bundle.identity_public_key bundle.identity_public_key))
    unwrapped (init_session p (text "lifecycle_peer") pub_bundle)
    check (has_session (text "lifecycle_peer"))
    ciphertext ← unwrapped (encrypt_message p (text "lifecycle_peer") end_to_end nonce)
    lift (assert (ltb 28 (length ciphertext)))

module _ {Cipher KeyPair : Type 0} (p : Platform Cipher KeyPair) where
  unfoldable pub test_encrypt_without_session_fails : Bytes → Exec Crypto (Unit {0})
  test_encrypt_without_session_fails nonce =
      refuses (encrypt_message p (text "nonexistent_user_12345") (text "test") nonce)
