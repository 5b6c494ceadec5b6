-- ===== src/Crypto/Peers/Delivery.antt =====
-- A message that arrives at a held session.
use merabriar.Prelude.{◌++◌, ℕ, suc, ◌+◌, ◌%◌, ◌≡◌, refl, ◌∙◌, Bool, true, false, arith}
use merabriar.Rust.Text.{Bytes, Text}
use merabriar.Rust.Result.{ok}
use merabriar.Rust.Words.{u32_mod}
use merabriar.Rust.HashMap.{get-insert_self}
use merabriar.Platform.{Platform, KdfLaws, AeadLaws}
use merabriar.Crypto.Session.{Session}
use merabriar.Crypto.Session.Derivation.{message_key, after_recv, MayStep}
use merabriar.Crypto.State.{Crypto}
use merabriar.Crypto.Encryption.{decrypt_message}
use merabriar.Crypto.Encryption.Success.{Holds, with_session, decrypt_message_lem}
use merabriar.Crypto.Peers.{Outgoing, IsSendable, Room}

pub with_session-Holds :
    (id : Text) (session : Session) (s : Crypto)
    → session.recipient_id ≡ id
    → Holds id session (with_session id session s)
with_session-Holds id session s owner = record {
  healthy = refl;
  found = get-insert_self id session s.sessions.value;
  owner = owner;
}

pub Room-step :
    (checks : Bool) (c n : ℕ) → Room checks c (suc n) → Room checks ((c + 1) % u32_mod) n
Room-step true c n h = omega arith
Room-step false c n h = omega arith

pub Room-MayStep : (checks : Bool) (c n : ℕ) → Room checks c (suc n) → MayStep checks c
Room-MayStep true c n h = omega arith
Room-MayStep false c n h = h

module _ {Cipher KeyPair : Type 0} {p : Platform Cipher KeyPair} (kdf : KdfLaws p)
    (aead : AeadLaws p) where
  -- A ciphertext for a session: a nonce and a text sealed under the next key of its receiving chain.
  abbrev pub expected : Session → Outgoing → Bytes
  expected b m =
      m.nonce ++ aead.box (message_key kdf b.recv_chain_key b.recv_counter) m.nonce m.plaintext

  pub decrypt_message-expected :
      (from : Text) (m : Outgoing) (b : Session) (r : Crypto)
      → Holds from b r
      → MayStep p.overflow_checks b.recv_counter
      → IsSendable m
      → decrypt_message p from (expected b m) r
        ≡ (ok m.plaintext, with_session from (after_recv kdf b) r)
  decrypt_message-expected from m b r holds step sendable =
      decrypt_message_lem kdf aead from m.plaintext m.nonce b r holds step sendable.nonce12
      ∙ rw sendable.utf8
