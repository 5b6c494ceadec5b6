-- ===== src/Bridge/Delivery.antt =====
-- Encryption and decryption from the C functions of frb_generated.rs through api.rs to the crypto module.
use merabriar.Prelude.{ℕ, ◌≡◌, true, List, ◌∷◌}
use merabriar.Rust.Text.{Bytes, Text}
use merabriar.Rust.Result.{ok}
use merabriar.Rust.Exec.{Exec}
use merabriar.Rust.Int.{ℤ}
use merabriar.Rust.Utf8.{is_utf8}
use merabriar.Platform.{Platform, KdfLaws, AeadLaws}
use merabriar.Crypto.Session.{Session}
use merabriar.Crypto.Session.Derivation.{after_send, after_recv, MayStep}
use merabriar.Crypto.Encryption.Success.{Holds, with_session, wire, encrypt_message_lem}
use merabriar.Crypto.Peers.{Outgoing, IsSendable}
use merabriar.Crypto.Peers.Delivery.{expected, decrypt_message-expected}
use merabriar.Engine.{Core}
use merabriar.Api
use merabriar.Bridge.Cst.{Ffi}
use merabriar.Bridge.Cst.Ownership.{FfiLaws, decode_list-Owned, decode_text-Owned}
use merabriar.Bridge.Dart.{Dart}
use merabriar.Bridge.Wire.{
  WireCall, task, transform_result, wire_decrypt_message, wire_encrypt_message,
}
use merabriar.Bridge.Io

-- A native call runs: its arguments are decoded and their memory is taken over, then its task goes from one
-- engine state to the next and gives a message.
pub record Runs {Memory Connection Message : Type 0} {f : Ffi Memory} (laws : FfiLaws f)
    (call : WireCall Memory Connection Message) (m : Memory) (rest : List (ℕ × Bytes))
    (s s' : Core Connection) (message : Message) : Type 0 where
  pub task : Exec (Core Connection) Message
  pub left : Memory
  pub prepared : call.prepare m ≡ (ok task, left)
  pub owned : laws.Owned left rest
  pub done : task s ≡ (ok message, s')

module _ {Memory Connection Cipher KeyPair Obj Message : Type 0} {f : Ffi Memory} (laws : FfiLaws f)
    (d : Dart Obj Message) {p : Platform Cipher KeyPair} (kdf : KdfLaws p) (aead : AeadLaws p) where
  -- Where an engine holds a session whose counters may step, and the memory owns the arguments of the calls: the
  -- native `encrypt_message` with a sendable text tells Dart the bytes sealed under the next key of the sending
  -- chain, and the native `decrypt_message` with a sendable text sealed under the next key of the receiving chain
  -- tells Dart that text. Each moves its chain of the session on, and takes over its arguments.
  pub io_seals_and_opens :
      (m n : Memory) (port : ℤ) (i j k l : ℕ) (contact : Text) (o q : Outgoing) (session : Session)
      (s : Core Connection) (rest : List (ℕ × Bytes))
      → is_utf8 contact ≡ true
      → Holds contact session s.crypto
      → MayStep p.overflow_checks session.send_counter
      → MayStep p.overflow_checks session.recv_counter
      → IsSendable o
      → IsSendable q
      → laws.Owned m ((i, contact) ∷ (j, o.plaintext) ∷ rest)
      → laws.Owned n ((k, contact) ∷ (l, expected kdf aead session q) ∷ rest)
      → Runs laws
          (Io.encrypt_message f d p o.nonce port i j)
          m
          rest
          s
          (record s { crypto = with_session contact (after_send kdf session) s.crypto })
          (d.on_ok (d.of_bytes (wire kdf aead session o.nonce o.plaintext)))
        × Runs laws
            (Io.decrypt_message f d p port k l)
            n
            rest
            s
            (record s { crypto = with_session contact (after_recv kdf session) s.crypto })
            (d.on_ok (d.of_text q.plaintext))
  unfolding Io.encrypt_message Io.decrypt_message wire_encrypt_message wire_decrypt_message
      Api.encrypt_message Api.decrypt_message task transform_result
  io_seals_and_opens m n port i j k l contact o q session s rest u ha send recv so sq om on =
      let (m₁, e₁, h₁) = decode_text-Owned laws m i contact _ u om in
      let (m₂, e₂, h₂) = decode_text-Owned laws m₁ j o.plaintext _ so.utf8 h₁ in
      let (n₁, g₁, k₁) = decode_text-Owned laws n k contact _ u on in
      let (n₂, g₂, k₂) = decode_list-Owned laws n₁ l (expected kdf aead session q) _ k₁ in
      (
        record {
          task = task d d.of_bytes (Api.encrypt_message p contact o.plaintext o.nonce);
          left = m₂;
          prepared = rw (e₁, e₂);
          owned = h₂;
          done = rw (
              encrypt_message_lem kdf aead contact o.plaintext o.nonce session s.crypto ha send
                so.nonce12 so.fits);
        },
        record {
          task = task d d.of_text (Api.decrypt_message p contact (expected kdf aead session q));
          left = n₂;
          prepared = rw (g₁, g₂);
          owned = k₂;
          done = rw (decrypt_message-expected kdf aead contact q session s.crypto ha recv sq);
        },
      )
