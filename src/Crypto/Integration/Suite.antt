-- ===== src/Crypto/Integration/Suite.antt =====
-- The tests of Integration one after another, in any order and as often as one likes.
use merabriar.Prelude.{◌≡◌, ◌≢◌, refl, ◌∙◌, false, none, some, List, [], ◌∷◌, length, arith}
use merabriar.Rust.Text.{Bytes, Text, text}
use merabriar.Rust.Result.{ok}
use merabriar.Rust.Exec.{Exec, pure, ◌>>◌}
use merabriar.Rust.Lock.{new_lock}
use merabriar.Rust.HashMap.{get-insert}
use merabriar.Platform.{Platform}
use merabriar.Crypto.Session.{Session}
use merabriar.Crypto.State.{Crypto, PublicKeyBundle}
use merabriar.Crypto.Keys.{get_public_key_bundle}
use merabriar.Crypto.Keys.Published.{stored_keys, generates}
use merabriar.Crypto.Sessions.{has_session}
use merabriar.Crypto.Encryption.Success.{with_session}
use merabriar.Crypto.Integration.{
  generate_and_publish, test_generate_identity_keys_returns_valid_bundle,
  test_get_public_key_bundle_after_generation, test_multiple_sessions, test_encrypt_empty_plaintext,
  test_decrypt_invalid_ciphertext, test_ciphertext_format, test_session_init_and_check,
  test_encrypt_message_produces_ciphertext, test_full_lifecycle_keygen_to_encrypt,
  test_encrypt_without_session_fails,
}

-- What the generators give to a test: a PKCS #8 document, an X25519 secret and a nonce.
pub record Draw : Type 0 where
  pub pkcs8 : Bytes
  pub prekey : Bytes
  pub nonce : Bytes

pub data Test : Type 0 where
  valid_bundle : Draw → Test
  bundle_published : Draw → Test
  multiple_sessions : Draw → Test
  empty_plaintext : Draw → Test
  invalid_ciphertext : Draw → Test
  ciphertext_format : Draw → Test
  session_check : Draw → Draw → Test
  ciphertext_produced : Draw → Test
  full_lifecycle : Draw → Test
  no_session : Bytes → Test

module _ {Cipher KeyPair : Type 0} (p : Platform Cipher KeyPair) where
  abbrev pub body : Test → Exec Crypto (Unit {0})
  body (valid_bundle d) = test_generate_identity_keys_returns_valid_bundle p (ok d.pkcs8) d.prekey
  body (bundle_published d) = test_get_public_key_bundle_after_generation p (ok d.pkcs8) d.prekey
  body (multiple_sessions d) = test_multiple_sessions p (ok d.pkcs8) d.prekey
  body (empty_plaintext d) = test_encrypt_empty_plaintext p (ok d.pkcs8) d.prekey d.nonce
  body (invalid_ciphertext d) = test_decrypt_invalid_ciphertext p (ok d.pkcs8) d.prekey
  body (ciphertext_format d) = test_ciphertext_format p (ok d.pkcs8) d.prekey d.nonce
  body (session_check d d') =
      test_session_init_and_check p (ok d.pkcs8) d.prekey (ok d'.pkcs8) d'.prekey
  body (ciphertext_produced d) =
      test_encrypt_message_produces_ciphertext p (ok d.pkcs8) d.prekey d.nonce
  body (full_lifecycle d) = test_full_lifecycle_keygen_to_encrypt p (ok d.pkcs8) d.prekey d.nonce
  body (no_session nonce) = test_encrypt_without_session_fails p nonce

  -- Up to the first that fails.
  abbrev pub run_tests : List Test → Exec Crypto (Unit {0})
  run_tests [] = pure tt
  run_tests (t ∷ ts) = do body t; run_tests ts

  -- The generators gave a document that parses, and a nonce of 12 bytes.
  pub record IsDrawn (d : Draw) : Type 0 where
    pub keypair : KeyPair
    pub parses : p.from_pkcs8 d.pkcs8 ≡ ok keypair
    pub nonce12 : length d.nonce ≡ 12

  abbrev pub IsRunnable : Test → Type 0
  IsRunnable (valid_bundle d) = IsDrawn d
  IsRunnable (bundle_published d) = IsDrawn d
  IsRunnable (multiple_sessions d) = IsDrawn d
  IsRunnable (empty_plaintext d) = IsDrawn d
  IsRunnable (invalid_ciphertext d) = IsDrawn d
  IsRunnable (ciphertext_format d) = IsDrawn d
  IsRunnable (session_check d d') = IsDrawn d × IsDrawn d'
  IsRunnable (ciphertext_produced d) = IsDrawn d
  IsRunnable (full_lifecycle d) = IsDrawn d
  IsRunnable (no_session nonce) = Unit

-- No lock is poisoned, and there are no sessions under the names that the tests take for unknown.
pub record IsClean (s : Crypto) : Type 0 where
  pub keys_healthy : s.identity_keys.poisoned ≡ false
  pub sessions_healthy : s.sessions.poisoned ≡ false
  pub no_eve : has_session (text "eve") s ≡ false
  pub no_unknown : has_session (text "unknown_user") s ≡ false
  pub no_stranger : has_session (text "nonexistent_user_12345") s ≡ false

module _ {Cipher KeyPair : Type 0} (p : Platform Cipher KeyPair) where
  -- A test passes and leaves a clean state.
  abbrev pub Passes : Test → Crypto → Type 0
  Passes t s = ((body p t s).0 ≡ ok tt) × IsClean (body p t s).1

pub has_session-with_session :
    (id k : Text) (session : Session) (s : Crypto)
    → s.sessions.poisoned ≡ false
    → id ≢ k
    → has_session k (with_session id session s) ≡ has_session k s
unfolding has_session
has_session-with_session id k session s h ne =
    ground (arith, get-insert id k session s.sessions.value)

pub IsClean-with_session :
    (id : Text) (session : Session) (s : Crypto)
    → id ≢ text "eve"
    → id ≢ text "unknown_user"
    → id ≢ text "nonexistent_user_12345"
    → IsClean s
    → IsClean (with_session id session s)
IsClean-with_session id session s ne nu ne' clean = record {
  keys_healthy = clean.keys_healthy;
  sessions_healthy = refl;
  no_eve =
      has_session-with_session id (text "eve") session s clean.sessions_healthy ne ∙ clean.no_eve;
  no_unknown =
      has_session-with_session id (text "unknown_user") session s clean.sessions_healthy nu
      ∙ clean.no_unknown;
  no_stranger =
      has_session-with_session id (text "nonexistent_user_12345") session s clean.sessions_healthy
        ne'
      ∙ clean.no_stranger;
}

module _ {Cipher KeyPair : Type 0} {p : Platform Cipher KeyPair} (d : Draw)
    (drawn : IsDrawn p d) where
  -- The state after the generation of the keys, and the bundle that is published then.
  abbrev pub signed : Crypto → Crypto
  signed s = record s {
    identity_keys = new_lock (some (stored_keys p d.pkcs8 d.prekey drawn.keypair));
  }

  abbrev pub shown : PublicKeyBundle
  shown = record {
    identity_public_key = p.public_key drawn.keypair;
    signed_prekey = p.x25519_public d.prekey;
    signature = p.sign drawn.keypair (p.x25519_public d.prekey);
    one_time_prekey = none;
  }

  pub IsClean-signed : (s : Crypto) → IsClean s → IsClean (signed s)
  unfolding has_session
  IsClean-signed s clean = record {
    keys_healthy = refl;
    sessions_healthy = clean.sessions_healthy;
    no_eve = clean.no_eve;
    no_unknown = clean.no_unknown;
    no_stranger = clean.no_stranger;
  }

  pub published : (s : Crypto) → get_public_key_bundle p (signed s) ≡ (ok shown, signed s)
  unfolding get_public_key_bundle
  published s = rw drawn.parses

  pub prologue :
      (s : Crypto)
      → IsClean s
      → generate_and_publish p (ok d.pkcs8) d.prekey s ≡ (ok shown, signed s)
  unfolding generate_and_publish
  prologue s clean =
      rw (generates p d.pkcs8 d.prekey drawn.keypair s drawn.parses clean.keys_healthy, published s)
