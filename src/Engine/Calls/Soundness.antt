-- ===== src/Engine/Calls/Soundness.antt =====
-- An invariant of sequences of exported calls, and what can follow on any of them.
use merabriar.Prelude.{◌≤◌, ◌≡◌, refl, ap, ◌∙◌, false, some, List, [], ◌∷◌, length, arith}
use merabriar.Rust.Text.{Bytes, Text}
use merabriar.Rust.Result.{Result, ok}
use merabriar.Platform.{Platform, KdfLaws, AeadLaws, max_plaintext}
use merabriar.Crypto.State.{Crypto, KeyBundle, PublicKeyBundle}
use merabriar.Crypto.Keys
use merabriar.Crypto.Keys.Published.{stored_keys, generates}
use merabriar.Crypto.Sessions
use merabriar.Crypto.Encryption
use merabriar.Rust.Lock.{new_lock}
use merabriar.Crypto.Sessions.Keyed.{IsKeyed, Touches}
use merabriar.Crypto.Sessions.Touched.{
  encrypt_message-Touches, decrypt_message-Touches, init_session-Touches,
}
use merabriar.Crypto.Encryption.Success.{wire, with_session, encrypt_message_lem}
use merabriar.Crypto.Peers.Delivery.{with_session-Holds}
use merabriar.Crypto.Peers.Handshake.{IsReady, agreed, init_session_lem, zero-MayStep}
use merabriar.Sync
use merabriar.Sync.Calls.{queue, clear, call_healthy}
use merabriar.Storage.{Sqlite}
use merabriar.Engine
use merabriar.Engine.{Core}
use merabriar.Engine.Calls.{
  Call, starting, generating, publishing, opening, encrypting, decrypting, queueing, clearing,
  storing, listing, after, run,
}

-- No lock of the crypto state or the queue is poisoned, and every session stands under its own recipient.
pub record IsSound {Connection : Type 0} (s : Core Connection) : Type 0 where
  pub keyed : IsKeyed s.crypto
  pub sessions : s.crypto.sessions.poisoned ≡ false
  pub keys : s.crypto.identity_keys.poisoned ≡ false
  pub queue : s.queue.poisoned ≡ false

-- A change of the crypto state that touches one contact only, and the others.
touched :
    {Connection : Type 0} {id : Text} (s : Core Connection) (c : Crypto)
    → IsSound s
    → Touches id s.crypto c
    → IsSound (record s { crypto = c })
touched s c h t = record {
  keyed = t.keyed;
  sessions = t.lock ∙ h.sessions;
  keys = ap (λ l. l.poisoned) t.identity ∙ h.keys;
  queue = h.queue;
}

requeued :
    {Connection : Type 0} (s : Core Connection) (l : Sync.Queue)
    → IsSound s
    → l.poisoned ≡ false
    → IsSound (record s { queue = l })
requeued s l h e = record { keyed = h.keyed; sessions = h.sessions; keys = h.keys; queue = e }

module _ {Cipher KeyPair : Type 0} (p : Platform Cipher KeyPair) where
  sessions-generate_identity_keys :
      (pkcs8 : Result Bytes) (prekey : Bytes) (s : Crypto)
      → (Keys.generate_identity_keys p pkcs8 prekey s).1.sessions ≡ s.sessions
  unfolding Keys.generate_identity_keys
  sessions-generate_identity_keys pkcs8 prekey s = ground arith

  keys-generate_identity_keys :
      (pkcs8 : Result Bytes) (prekey : Bytes) (s : Crypto)
      → s.identity_keys.poisoned ≡ false
      → (Keys.generate_identity_keys p pkcs8 prekey s).1.identity_keys.poisoned ≡ false
  unfolding Keys.generate_identity_keys
  keys-generate_identity_keys pkcs8 prekey s h = ground arith

  state-get_public_key_bundle : (s : Crypto) → (Keys.get_public_key_bundle p s).1 ≡ s
  unfolding Keys.get_public_key_bundle
  state-get_public_key_bundle s = ground arith

module _ {Cipher KeyPair Connection : Type 0} (p : Platform Cipher KeyPair)
    (q : Sqlite Connection) where
  -- `init_core` changes the database only.
  init_core-keeps :
      (db_path key : Text) (s : Core Connection)
      → ((Engine.init_core q db_path key s).1.crypto ≡ s.crypto)
        × ((Engine.init_core q db_path key s).1.queue ≡ s.queue)
  unfolding Engine.init_core Sync.init
  init_core-keeps db_path key s = (ground arith, ground arith)

  after-IsSound : (c : Call) (s : Core Connection) → IsSound s → IsSound (after p q c s)
  unfolding Engine.generate_identity_keys Engine.get_public_key_bundle Engine.init_session
      Engine.encrypt_message Engine.decrypt_message Engine.queue_message_internal
      Engine.clear_queue_internal Engine.store_message_internal Engine.get_messages_internal
  after-IsSound (starting db_path key) s h =
      let (same, still) = init_core-keeps db_path key s in
      record {
        keyed = rw same h.keyed;
        sessions = rw same h.sessions;
        keys = rw same h.keys;
        queue = rw still h.queue;
      }
  after-IsSound (generating pkcs8 prekey) s h = record {
    keyed = rw (sessions-generate_identity_keys p pkcs8 prekey s.crypto) h.keyed;
    sessions = rw (sessions-generate_identity_keys p pkcs8 prekey s.crypto) h.sessions;
    keys = keys-generate_identity_keys p pkcs8 prekey s.crypto h.keys;
    queue = h.queue;
  }
  after-IsSound publishing s h = rw (state-get_public_key_bundle p s.crypto) h
  after-IsSound (opening id bundle) s h =
      touched s (Sessions.init_session p id bundle s.crypto).1 h
        (init_session-Touches p id bundle s.crypto h.keyed)
  after-IsSound (encrypting id plaintext nonce) s h =
      touched s (Encryption.encrypt_message p id plaintext nonce s.crypto).1 h
        (encrypt_message-Touches p id plaintext nonce s.crypto h.keyed)
  after-IsSound (decrypting id ciphertext) s h =
      touched s (Encryption.decrypt_message p id ciphertext s.crypto).1 h
        (decrypt_message-Touches p id ciphertext s.crypto h.keyed)
  after-IsSound (queueing message) s h =
      requeued s (Sync.queue_message message s.queue).1 h
        (call_healthy (queue message) s.queue h.queue).1
  after-IsSound (clearing ids) s h =
      requeued s (Sync.clear_queue ids s.queue).1 h (call_healthy (clear ids) s.queue h.queue).1
  after-IsSound (storing message) s h = record {
    keyed = h.keyed;
    sessions = h.sessions;
    keys = h.keys;
    queue = h.queue;
  }
  after-IsSound (listing id limit offset) s h = record {
    keyed = h.keyed;
    sessions = h.sessions;
    keys = h.keys;
    queue = h.queue;
  }

  -- Whatever exported functions are called on a sound engine, with whatever arguments and outcomes, it stays
  -- sound: the locks of the sessions, of the identity keys and of the queue are not poisoned, and every session
  -- stands under its own recipient.
  pub run-IsSound : (cs : List Call) (s : Core Connection) → IsSound s → IsSound (run p q cs s)
  run-IsSound [] s h = h
  run-IsSound (c ∷ cs) s h = run-IsSound cs (after p q c s) (after-IsSound c s h)

module _ {Cipher KeyPair Connection : Type 0} {p : Platform Cipher KeyPair} (kdf : KdfLaws p)
    (aead : AeadLaws p) (q : Sqlite Connection) where
  -- Whatever exported functions have been called on a sound engine, the user can go on: with a key pair that
  -- parses, a bundle whose prekey has 32 bytes, a 12-byte nonce and a plaintext that AES-GCM takes, a sign-up
  -- succeeds, a session is opened after it, and a message is then encrypted under the first key of its chain.
  pub recovers :
      (cs : List Call) (s : Core Connection) (id plaintext : Text) (theirs : PublicKeyBundle)
      (pkcs8 prekey nonce : Bytes) (keypair : KeyPair)
      → IsSound s
      → p.from_pkcs8 pkcs8 ≡ ok keypair
      → length theirs.signed_prekey ≡ 32
      → length nonce ≡ 12
      → length plaintext ≤ max_plaintext
      → let u = run p q cs s in
        let v = after p q (generating (ok pkcs8) prekey) u in
        let w = after p q (opening id theirs) v in
        ((shared : KeyBundle) × ((Engine.generate_identity_keys p (ok pkcs8) prekey u).0
            ≡ ok shared))
        × ((Engine.init_session p id theirs v).0 ≡ ok tt)
        × ((Engine.encrypt_message p id plaintext nonce w).0
            ≡ ok (
                wire kdf aead
                  (agreed kdf (stored_keys p pkcs8 prekey keypair) id theirs)
                  nonce
                  plaintext))
  unfolding Engine.generate_identity_keys Engine.init_session Engine.encrypt_message
  recovers cs s id plaintext theirs pkcs8 prekey nonce keypair h parses n32 n12 fits =
      let u = (run p q cs s).crypto in
      let sound = run-IsSound p q cs s h in
      let keys = stored_keys p pkcs8 prekey keypair in
      let v : Crypto = record u { identity_keys = new_lock (some keys) } in
      let ready : IsReady keys v = record {
        keys_readable = refl;
        has_keys = refl;
        sessions_healthy = sound.sessions;
      } in
      let session = agreed kdf keys id theirs in
      rw
        (
          generates p pkcs8 prekey keypair u parses sound.keys,
          init_session_lem kdf id keys theirs v ready n32,
          encrypt_message_lem kdf aead id plaintext nonce session (with_session id session v)
              (with_session-Holds id session v refl) (zero-MayStep p.overflow_checks) n12 fits,
        )
        ((_, refl), refl, refl)
