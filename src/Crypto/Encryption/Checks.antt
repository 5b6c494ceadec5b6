-- ===== src/Crypto/Encryption/Checks.antt =====
-- The unit tests of crypto/encryption.rs, as functions that panic where an assertion fails, and the session
-- that they store for decryption.
use merabriar.Prelude.{
  ◌+◌, ◌≤◌, ◌≡◌, ◌≢◌, refl, sym, ap, ◌∙◌, true, false, some, ◌++◌, length, take, take-append,
  drop-append, replicate, leb, ◌==◌, ite, if_neg, arith,
}
use merabriar.Rust.Text.{Bytes, Text, text, Text_discrete}
use merabriar.Rust.Result.{Result, ok, err, panic, unwrap, assert}
use merabriar.Rust.Exec.{Exec, lift, ◌>>=◌, ◌>>◌}
use merabriar.Rust.Lock.{write}
use merabriar.Rust.HashMap
use merabriar.Rust.HashMap.{HashMap, insert, get-insert, get-insert_self}
use merabriar.Platform.{Platform, KdfLaws, AeadLaws, AeadRejects, max_plaintext}
use merabriar.Crypto.Session.{Session, new}
use merabriar.Crypto.Session.Derivation.{
  fresh, new-fresh, message_key, after_send, derive_recv_key_lem,
}
use merabriar.Crypto.State.{Crypto}
use merabriar.Crypto.Sessions.{get_session_mut}
use merabriar.Crypto.Sessions.Keyed.{IsKeyed}
use merabriar.Crypto.Peers.Handshake.{zero-MayStep}
use merabriar.Crypto.Encryption.{encrypt_message, decrypt_message, decrypt_checked}
use merabriar.Crypto.Encryption.Success.{
  Holds, with_session, wire, length-sealed, not-short, encrypt_message_lem,
}

-- `.unwrap()` of a call
abbrev pub unwrapped : {S A : Type 0} → Exec S A → Exec S A
unwrapped f s = let (r, s') = f s in (unwrap r, s')

-- The body of `setup_test_session` under the lock: the second session is made there.
unfoldable pub insert_both : Session → Result Session → Exec (HashMap Session) (Unit {0})
insert_both session (ok recv_session) sessions =
    (ok tt, insert (text "self") recv_session (insert (text "test_user") session sessions))
insert_both session (err e) sessions = (err e, insert (text "test_user") session sessions)
insert_both session panic sessions = (panic, insert (text "test_user") session sessions)

module _ {Cipher KeyPair : Type 0} (p : Platform Cipher KeyPair) where
  unfoldable pub setup_test_session : Exec Crypto (Unit {0})
  unfolding insert_both
  setup_test_session = do
    session ← lift (new p (text "test_user") (replicate 32 42))
    λ s.
        let (r, l) =
          write (insert_both session (new p (text "test_user") (replicate 32 42))) s.sessions in
        (unwrap r, record s { sessions = l })

  unfoldable pub test_encrypt_decrypt : Bytes → Exec Crypto (Unit {0})
  unfolding setup_test_session
  test_encrypt_decrypt nonce = do
    setup_test_session
    ciphertext ← unwrapped (encrypt_message p (text "test_user") (text "Hello, World!") nonce)
    lift (assert (ite (Text_discrete ciphertext (text "Hello, World!")) false true))
    lift (assert (leb (12 + length (text "Hello, World!") + 16) (length ciphertext)))

  unfoldable pub test_ciphertext_format : Bytes → Exec Crypto (Unit {0})
  unfolding setup_test_session
  test_ciphertext_format nonce = do
    setup_test_session
    ciphertext ← unwrapped (encrypt_message p (text "test_user") (text "Test") nonce)
    lift (assert (leb (12 + 16) (length ciphertext)))
    lift (assert (length (take 12 ciphertext) == 12))

other_ids : text "self" ≢ text "test_user"
other_ids e = absurd (omega (arith, ap length e))

module _ {Cipher KeyPair : Type 0} {p : Platform Cipher KeyPair} (kdf : KdfLaws p)
    (aead : AeadLaws p) where
  abbrev pub test_session : Session
  test_session = fresh kdf (text "test_user") (replicate 32 42)

  -- The state after the setup: the one session stands under two ids.
  abbrev set_up : Crypto → Crypto
  set_up s =
      with_session (text "self") test_session (with_session (text "test_user") test_session s)

  setup_lem :
      (s : Crypto) → s.sessions.poisoned ≡ false → setup_test_session p s ≡ (ok tt, set_up s)
  unfolding setup_test_session insert_both
  setup_lem s healthy = rw (new-fresh kdf (text "test_user") (replicate 32 42), healthy)

  set_up-Holds : (s : Crypto) → Holds (text "test_user") test_session (set_up s)
  set_up-Holds s = record {
    healthy = refl;
    found =
        let before = insert (text "test_user") test_session s.sessions.value in
        get-insert (text "self") (text "test_user") test_session before
        ∙ if_neg (Text_discrete (text "self") (text "test_user")) other_ids (some test_session)
            (HashMap.get (text "test_user") before)
        ∙ get-insert_self (text "test_user") test_session s.sessions.value;
    owner = refl;
  }

  -- What the tests encrypt.
  abbrev test_sealed : Bytes → Text → Bytes
  test_sealed nonce plaintext = wire kdf aead test_session nonce plaintext

  abbrev after_test : Crypto → Crypto
  after_test s = with_session (text "test_user") (after_send kdf test_session) (set_up s)

  encrypts :
      (nonce : Bytes) (plaintext : Text) (s : Crypto)
      → length nonce ≡ 12
      → length plaintext ≤ max_plaintext
      → encrypt_message p (text "test_user") plaintext nonce (set_up s)
        ≡ (ok (test_sealed nonce plaintext), after_test s)
  encrypts nonce plaintext s n12 fits =
      encrypt_message_lem kdf aead (text "test_user") plaintext nonce test_session (set_up s)
        (set_up-Holds s) (zero-MayStep p.overflow_checks) n12 fits

  differs :
      (nonce : Bytes) (plaintext : Text)
      → length nonce ≡ 12
      → test_sealed nonce plaintext ≢ plaintext
  differs nonce plaintext n12 e = absurd (
      omega (
        arith,
        ap length e,
        length-sealed kdf aead (message_key kdf test_session.send_chain_key 0) nonce plaintext n12,
      ))

  -- Both tests pass wherever the lock of the sessions is not poisoned and a nonce has 12 bytes.
  encryption_tests_pass :
      (nonce : Bytes) (s : Crypto)
      → s.sessions.poisoned ≡ false
      → length nonce ≡ 12
      → (test_encrypt_decrypt p nonce s ≡ (ok tt, after_test s))
        × (test_ciphertext_format p nonce s ≡ (ok tt, after_test s))
  unfolding test_encrypt_decrypt test_ciphertext_format
  encryption_tests_pass nonce s healthy n12 =
      let hello = text "Hello, World!" in
      let test = text "Test" in
      let key = message_key kdf test_session.send_chain_key 0 in
      (
        rw (
          setup_lem s healthy,
          encrypts nonce hello s n12 (omega arith),
          if_neg (Text_discrete (test_sealed nonce hello) hello) (differs nonce hello n12) false
              true,
          length-sealed kdf aead key nonce hello n12,
        ),
        rw (
          setup_lem s healthy,
          encrypts nonce test s n12 (omega arith),
          length-sealed kdf aead key nonce test n12,
          take-append 12 nonce (aead.box key nonce test) n12,
          n12,
        ),
      )

  held_as_self :
      (s : Crypto) → get_session_mut (text "self") (after_test s) ≡ (ok test_session, after_test s)
  unfolding get_session_mut
  held_as_self s =
      let user = insert (text "test_user") test_session s.sessions.value in
      let both = insert (text "self") test_session user in
      let found =
        get-insert (text "test_user") (text "self") (after_send kdf test_session) both
        ∙ if_neg (Text_discrete (text "test_user") (text "self")) (λ e. other_ids (sym e))
            (some (after_send kdf test_session)) (HashMap.get (text "self") both)
        ∙ get-insert_self (text "self") test_session user in
      rw found

  -- After `setup_test_session` and an encryption for "test_user" (12-byte nonce, a text that AES-GCM takes), run
  -- one after the other where the lock of the sessions is not poisoned: the setup and the encryption succeed, a
  -- session stands under an id that is not its own, and, if the two message keys of the test secret differ, what was
  -- encrypted is refused for "self", and nothing changes.
  pub self_refused :
      (other : AeadRejects p aead) (nonce : Bytes) (plaintext : Text) (s : Crypto)
      → s.sessions.poisoned ≡ false
      → length nonce ≡ 12
      → length plaintext ≤ max_plaintext
      → message_key kdf test_session.send_chain_key 0
        ≢ message_key kdf test_session.recv_chain_key 0
      → let ready = setup_test_session p s in
        (ready.0 ≡ ok tt)
        × (¬ IsKeyed ready.1)
        × (sealed : Bytes) × (t : Crypto) × (encrypt_message p
              (text "test_user")
              plaintext
              nonce
              ready.1
            ≡ (ok sealed, t))
        × (decrypt_message p (text "self") sealed t
            ≡ (err (text "Decryption failed: " ++ other.rejection), t))
  unfolding decrypt_message decrypt_checked
  self_refused other nonce plaintext s healthy n12 fits separated =
      let key = message_key kdf test_session.send_chain_key 0 in
      let mine = message_key kdf test_session.recv_chain_key 0 in
      let user = insert (text "test_user") test_session s.sessions.value in
      rw (setup_lem s healthy) (
        refl,
        (λ keyed. other_ids (
            sym (
              keyed (text "self") test_session (get-insert_self (text "self") test_session user)))),
        test_sealed nonce plaintext,
        after_test s,
        encrypts nonce plaintext s n12 fits,
        rw (
          not-short kdf aead key nonce plaintext n12,
          held_as_self s,
          derive_recv_key_lem kdf test_session (zero-MayStep p.overflow_checks),
          aead.makes mine (kdf.length_okm _ _ _ 32),
          take-append 12 nonce (aead.box key nonce plaintext) n12,
          drop-append 12 nonce (aead.box key nonce plaintext) n12,
          other.rejects key mine nonce plaintext separated,
        ),
      )
