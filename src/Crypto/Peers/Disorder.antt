-- ===== src/Crypto/Peers/Disorder.antt =====
-- Messages that arrive out of order or twice: the receiving chain of crypto/session.rs moves only on success.
use merabriar.Prelude.{◌≡◌, ◌≢◌, sym, ◌++◌}
use merabriar.Rust.Text.{Bytes, Text, text}
use merabriar.Rust.Result.{ok, err}
use merabriar.Platform.{Platform, KdfLaws, AeadLaws, AeadRejects}
use merabriar.Crypto.Session.{Session}
use merabriar.Crypto.Session.Derivation.{message_key, after_recv}
use merabriar.Crypto.State.{Crypto}
use merabriar.Crypto.Encryption.{decrypt_message}
use merabriar.Crypto.Encryption.Success.{Holds, with_session, decrypt_message-other_key}
use merabriar.Crypto.Peers.{Outgoing, IsSendable, Room}
use merabriar.Crypto.Peers.Delivery.{
  with_session-Holds, Room-step, Room-MayStep, expected, decrypt_message-expected,
}

module _ {Cipher KeyPair : Type 0} {p : Platform Cipher KeyPair} (kdf : KdfLaws p) where
  -- The key that a session expects next.
  abbrev pub receiving_key : Session → Bytes
  receiving_key b = message_key kdf b.recv_chain_key b.recv_counter

module _ {Cipher KeyPair : Type 0} {p : Platform Cipher KeyPair} (kdf : KdfLaws p)
    (aead : AeadLaws p) (other : AeadRejects p aead) (from : Text) where
  -- A held session, with room in its counter for two messages, is sent two sendable texts, sealed under the next
  -- key of its receiving chain and under the key after that, which differ. The second is refused
  -- while the first has not arrived, and refusing it changes nothing; then the first is decrypted;
  -- the first is refused when it comes again, and nothing changes; then the second is decrypted.
  pub out_of_order :
      (m n : Outgoing) (b : Session) (s : Crypto)
      → Holds from b s
      → Room p.overflow_checks b.recv_counter 2
      → IsSendable m
      → IsSendable n
      → receiving_key kdf b ≢ receiving_key kdf (after_recv kdf b)
      → let first = expected kdf aead b m in
        let second = expected kdf aead (after_recv kdf b) n in
        let refusal = err (text "Decryption failed: " ++ other.rejection) in
        (t u : Crypto) × (decrypt_message p from second s ≡ (refusal, s))
        × (decrypt_message p from first s ≡ (ok m.plaintext, t))
        × (decrypt_message p from first t ≡ (refusal, t))
        × (decrypt_message p from second t ≡ (ok n.plaintext, u))
  out_of_order m n b s holds room sm sn advances =
      let c = after_recv kdf b in
      let t = with_session from c s in
      let holds_t = with_session-Holds from c s holds.owner in
      let step = Room-MayStep p.overflow_checks b.recv_counter 1 room in
      let step_t =
        Room-MayStep p.overflow_checks c.recv_counter 0
          (Room-step p.overflow_checks b.recv_counter 1 room) in
      (
        t,
        with_session from (after_recv kdf c) t,
        decrypt_message-other_key kdf aead other from n.plaintext (receiving_key kdf c) n.nonce b s
            holds step sn.nonce12 (λ e. advances (sym e)),
        decrypt_message-expected kdf aead from m b s holds step sm,
        decrypt_message-other_key kdf aead other from m.plaintext (receiving_key kdf b) m.nonce c t
            holds_t step_t sm.nonce12 advances,
        decrypt_message-expected kdf aead from n c t holds_t step_t sn,
      )
