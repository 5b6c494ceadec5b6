-- ===== src/Crypto/Encryption/Errors.antt =====
-- The error paths of crypto/encryption.rs: what is returned, and what has been written by then.
use merabriar.Prelude.{
  ◌+◌, ◌≤◌, ◌≡◌, ◌⊎◌, inl, inr, none, length, take, drop, ltb, if◌then◌else◌, Bool-cases, ◌++◌,
  arith,
}
use merabriar.Rust.Text.{Bytes, Text, text}
use merabriar.Rust.Result.{
  Result, ok, err, panic, map_err, is_ok, is_err, is_panic, Result-cases, ◌>>=◌,
}
use merabriar.Rust.Lock.{poison_text}
use merabriar.Rust.Utf8.{from_utf8}
use merabriar.Rust.HashMap
use merabriar.Rust.Words.{u32_mod, inc_u32}
use merabriar.Platform.{Platform, KdfLaws, AeadLaws, max_plaintext}
use merabriar.Crypto.Session.{Session, derive_send_key, derive_recv_key}
use merabriar.Crypto.Session.Derivation.{message_key, next_chain, derive_message_key_lem}
use merabriar.Crypto.State.{Crypto}
use merabriar.Crypto.Sessions.{get_session_mut, update_session}
use merabriar.Crypto.Encryption.{encrypt_message, decrypt_message}
use merabriar.Crypto.Encryption.Success.{Holds, with_session, wire, get_session_mut-Holds}

module _ {Cipher KeyPair : Type 0} (p : Platform Cipher KeyPair) where
  -- `encrypt_message` returns a ciphertext, or it leaves the whole state as it was.
  encrypt_message-atomic :
      (id plaintext : Text) (nonce : Bytes) (s : Crypto)
      → ((sealed : Bytes) × ((encrypt_message p id plaintext nonce s).0 ≡ ok sealed))
        ⊎ ((encrypt_message p id plaintext nonce s).1 ≡ s)
  unfolding encrypt_message get_session_mut update_session
  encrypt_message-atomic id plaintext nonce s =
      elim (Result-cases (encrypt_message p id plaintext nonce s).0) [
        | is_ok sealed e ↦ inl (sealed, e)
        | is_err _ e ↦ inr (ground arith)
        | is_panic e ↦ inr (ground arith)
      ]

  -- Without a session both operations fail with its name, after the check of the length and of the lock.
  pub no_session :
      (id plaintext : Text) (nonce sealed : Bytes) (s : Crypto)
      → HashMap.get id s.sessions.value ≡ none
      → (encrypt_message p id plaintext nonce s ≡ (
          if s.sessions.poisoned
          then (err poison_text, s)
          else (err (text "No session for " ++ id), s)))
        × (decrypt_message p id sealed s ≡ (
            if ltb (length sealed) 28
            then (err (text "Ciphertext too short"), s)
            else if s.sessions.poisoned
            then (err poison_text, s)
            else (err (text "No session for " ++ id), s)))
  unfolding encrypt_message decrypt_message get_session_mut
  no_session id plaintext nonce sealed s missing = (ground arith, ground arith)

module _ {Cipher KeyPair : Type 0} (p : Platform Cipher KeyPair) where
  -- The plaintext that `decrypt_message` opens, before it is stored and decoded.
  abbrev pub opened : Text → Bytes → Crypto → Result Bytes
  opened id sealed s = do
    session ← (get_session_mut id s).0
    derived ← derive_recv_key p session
    cipher ← map_err (text "Failed to create cipher: ") (p.new_from_slice derived.0)
    map_err (text "Decryption failed: ") (p.decrypt cipher (take 12 sealed) (drop 12 sealed))

  -- `decrypt_message` leaves the state as it was, or AES-GCM has opened the ciphertext under the next key of
  -- the session: then the result is what the plaintext decodes to, be it a text or the error for bytes that
  -- are none.
  pub decrypt_message-atomic :
      (id : Text) (sealed : Bytes) (s : Crypto)
      → ((decrypt_message p id sealed s).1 ≡ s)
        ⊎ ((plaintext : Bytes) × (opened id sealed s ≡ ok plaintext)
            × ((decrypt_message p id sealed s).0
                ≡ map_err (text "Invalid UTF-8: ") (from_utf8 p.utf8_error plaintext)))
  unfolding decrypt_message get_session_mut update_session
  decrypt_message-atomic id sealed s = elim (Result-cases (opened id sealed s)) [
    | is_ok plaintext e ↦ elim (Bool-cases (ltb (length sealed) 28)) [
      | inl short ↦ inl (ground arith)
      | inr long ↦ inr (plaintext, e, ground arith)
    ]
    | is_err _ e ↦ inl (ground arith)
    | is_panic e ↦ inl (ground arith)
  ]

module _ {Cipher KeyPair : Type 0} {p : Platform Cipher KeyPair} (kdf : KdfLaws p)
    (aead : AeadLaws p) where
  -- With a session that is held and whose sending counter has its last value, a 12-byte nonce and a plaintext
  -- within the limit of AES-GCM, `encrypt_message` panics in a build with overflow checks and changes nothing;
  -- in one without, it seals and the counter is 0 again.
  pub encrypt_message-last_counter :
      (id plaintext : Text) (nonce : Bytes) (session : Session) (s : Crypto)
      → Holds id session s
      → session.send_counter + 1 ≡ u32_mod
      → length nonce ≡ 12
      → length plaintext ≤ max_plaintext
      → encrypt_message p id plaintext nonce s ≡ (
          if p.overflow_checks then (panic, s) else (
            ok (wire kdf aead session nonce plaintext),
            with_session id
                (record session {
                  send_chain_key = next_chain kdf session.send_chain_key session.send_counter;
                  send_counter = 0;
                })
                s,
          ))
  unfolding encrypt_message derive_send_key inc_u32 update_session
  encrypt_message-last_counter id plaintext nonce session s holds last n12 fits =
      let key = message_key kdf session.send_chain_key session.send_counter in
      let k32 : length key ≡ 32 = kdf.length_okm _ _ _ 32 in
      ground (
        arith,
        get_session_mut-Holds id session s holds,
        derive_message_key_lem kdf session.send_chain_key session.send_counter,
        aead.makes key k32,
        aead.seals key nonce plaintext k32 n12 fits,
      )
