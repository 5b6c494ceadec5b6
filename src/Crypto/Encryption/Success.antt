-- ===== src/Crypto/Encryption/Success.antt =====
-- What `encrypt_message` and `decrypt_message` of crypto/encryption.rs do when the session is there and the
-- crates keep their contracts.
use merabriar.Prelude.{
  ◌+◌, ◌≤◌, ◌≡◌, ◌≢◌, false, ◌++◌, some, arith, length, ltb, le→ltb_false, length-append,
  take-append, drop-append,
}
use merabriar.Rust.Text.{Bytes, Text, text}
use merabriar.Rust.Result.{Result, ok, err, map_err}
use merabriar.Rust.Utf8.{from_utf8}
use merabriar.Rust.HashMap
use merabriar.Rust.HashMap.{HashMap}
use merabriar.Platform.{Platform, KdfLaws, AeadLaws, AeadRejects, max_plaintext}
use merabriar.Crypto.Session.{Session}
use merabriar.Crypto.Session.Derivation.{
  message_key, after_send, after_recv, MayStep, derive_send_key_lem, derive_recv_key_lem,
}
use merabriar.Crypto.State.{Crypto}
use merabriar.Crypto.Sessions.{get_session_mut, update_session}
use merabriar.Crypto.Encryption.{encrypt_message, decrypt_checked, decrypt_message}

-- The store is readable and holds this session under `id`, as its own.
pub record Holds (id : Text) (session : Session) (s : Crypto) : Type 0 where
  pub healthy : s.sessions.poisoned ≡ false
  pub found : HashMap.get id s.sessions.value ≡ some session
  pub owner : session.recipient_id ≡ id

-- The state with another session under `id`.
abbrev pub with_session : Text → Session → Crypto → Crypto
with_session id session s = record s {
  sessions = record { value = HashMap.insert id session s.sessions.value; poisoned = false };
}

pub get_session_mut-Holds :
    (id : Text) (session : Session) (s : Crypto)
    → Holds id session s
    → get_session_mut id s ≡ (ok session, s)
unfolding get_session_mut
get_session_mut-Holds id session s h = ground arith

pub update_session-healthy :
    (id : Text) (session : Session) (s : Crypto)
    → s.sessions.poisoned ≡ false
    → session.recipient_id ≡ id
    → update_session session s ≡ (ok tt, with_session id session s)
unfolding update_session
update_session-healthy id session s healthy owner = ground arith

module _ {Cipher KeyPair : Type 0} {p : Platform Cipher KeyPair} (kdf : KdfLaws p)
    (aead : AeadLaws p) where
  -- The bytes on the wire.
  abbrev pub wire : Session → Bytes → Text → Bytes
  wire session nonce plaintext =
      nonce
      ++ aead.box (message_key kdf session.send_chain_key session.send_counter) nonce plaintext

  -- In a healthy store that holds a session under `id`, with a counter that may step, a 12-byte nonce and a
  -- plaintext that AES-GCM takes, `encrypt_message` returns the nonce and the box under the key of the
  -- sending chain, and stores the session with its sending chain moved on by one.
  pub encrypt_message_lem :
      (id plaintext : Text) (nonce : Bytes) (session : Session) (s : Crypto)
      → Holds id session s
      → MayStep p.overflow_checks session.send_counter
      → length nonce ≡ 12
      → length plaintext ≤ max_plaintext
      → encrypt_message p id plaintext nonce s
        ≡ (ok (wire session nonce plaintext), with_session id (after_send kdf session) s)
  unfolding encrypt_message
  encrypt_message_lem id plaintext nonce session s holds step n12 fits =
      let key = message_key kdf session.send_chain_key session.send_counter in
      let k32 = kdf.length_okm _ _ _ 32 in
      rw (
        get_session_mut-Holds id session s holds,
        derive_send_key_lem kdf session step,
        aead.makes key k32,
        aead.seals key nonce plaintext k32 n12 fits,
        update_session-healthy id (after_send kdf session) s holds.healthy holds.owner,
      )

  -- The text of a decrypted plaintext, or the error of one that is not UTF-8.
  abbrev pub decoded : Bytes → Result Text
  decoded plaintext = map_err (text "Invalid UTF-8: ") (from_utf8 p.utf8_error plaintext)

  decrypt_checked_lem :
      (id plaintext : Text) (nonce : Bytes) (session : Session) (s : Crypto)
      → Holds id session s
      → MayStep p.overflow_checks session.recv_counter
      → length nonce ≡ 12
      → decrypt_checked p id
          (nonce
            ++ aead.box
                (message_key kdf session.recv_chain_key session.recv_counter)
                nonce
                plaintext)
          s
        ≡ (decoded plaintext, with_session id (after_recv kdf session) s)
  unfolding decrypt_checked
  decrypt_checked_lem id plaintext nonce session s holds step n12 =
      let key = message_key kdf session.recv_chain_key session.recv_counter in
      let k32 = kdf.length_okm _ _ _ 32 in
      rw (
        get_session_mut-Holds id session s holds,
        derive_recv_key_lem kdf session step,
        aead.makes key k32,
        take-append 12 nonce (aead.box key nonce plaintext) n12,
        drop-append 12 nonce (aead.box key nonce plaintext) n12,
        aead.unseals key nonce plaintext k32 n12,
        update_session-healthy id (after_recv kdf session) s holds.healthy holds.owner,
      )

  -- A ciphertext has at least the length of a nonce and a tag.
  pub length-sealed :
      (key nonce plaintext : Bytes)
      → length nonce ≡ 12
      → length (nonce ++ aead.box key nonce plaintext) ≡ 12 + length plaintext + 16
  length-sealed key nonce plaintext n12 = omega (
    arith,
    length-append nonce (aead.box key nonce plaintext),
    aead.length_box key nonce plaintext,
  )

  pub not-short :
      (key nonce plaintext : Bytes)
      → length nonce ≡ 12
      → ltb (length (nonce ++ aead.box key nonce plaintext)) (12 + 16) ≡ false
  not-short key nonce plaintext n12 =
      le→ltb_false _ _ (omega (arith, length-sealed key nonce plaintext n12))

  -- In a healthy store that holds a session under `id`, with a counter that may step, `decrypt_message` opens
  -- a 12-byte nonce and a box under the key of the receiving chain: it returns what the plaintext decodes to,
  -- and stores the session with its receiving chain moved on by one.
  pub decrypt_message_lem :
      (id plaintext : Text) (nonce : Bytes) (session : Session) (s : Crypto)
      → Holds id session s
      → MayStep p.overflow_checks session.recv_counter
      → length nonce ≡ 12
      → decrypt_message p id
          (nonce
            ++ aead.box
                (message_key kdf session.recv_chain_key session.recv_counter)
                nonce
                plaintext)
          s
        ≡ (decoded plaintext, with_session id (after_recv kdf session) s)
  unfolding decrypt_message
  decrypt_message_lem id plaintext nonce session s holds step n12 =
      let key = message_key kdf session.recv_chain_key session.recv_counter in
      rw (not-short key nonce plaintext n12)
        (decrypt_checked_lem id plaintext nonce session s holds step n12)

  -- In a healthy store that holds a session under `id`, with a counter that may step, a 12-byte nonce and a box
  -- under any key but the next one of the receiving chain are refused, and nothing changes.
  pub decrypt_message-other_key :
      (other : AeadRejects p aead) (id plaintext : Text) (key nonce : Bytes) (session : Session)
      (s : Crypto)
      → Holds id session s
      → MayStep p.overflow_checks session.recv_counter
      → length nonce ≡ 12
      → key ≢ message_key kdf session.recv_chain_key session.recv_counter
      → decrypt_message p id (nonce ++ aead.box key nonce plaintext) s
        ≡ (err (text "Decryption failed: " ++ other.rejection), s)
  unfolding decrypt_message decrypt_checked
  decrypt_message-other_key other id plaintext key nonce session s holds step n12 differs =
      let mine = message_key kdf session.recv_chain_key session.recv_counter in
      rw (
        not-short key nonce plaintext n12,
        get_session_mut-Holds id session s holds,
        derive_recv_key_lem kdf session step,
        aead.makes mine (kdf.length_okm _ _ _ 32),
        take-append 12 nonce (aead.box key nonce plaintext) n12,
        drop-append 12 nonce (aead.box key nonce plaintext) n12,
        other.rejects key mine nonce plaintext differs,
      )
