-- ===== src/Crypto/Peers/Chain.antt =====
-- A sequence of calls of `encrypt_message` against the chain of keys that it is meant to walk.
use merabriar.Prelude.{
  subst, ℕ, zero, suc, ◌+◌, ◌<◌, ◌≡◌, refl, Bool, true, false, List, [], ◌∷◌, ◌++◌, All, length,
  arith,
}
use merabriar.Rust.Text.{Bytes, Text}
use merabriar.Rust.Result.{ok}
use merabriar.Rust.Exec.{Exec, continue}
use merabriar.Rust.Words.{u32_mod}
use merabriar.Platform.{Platform, KdfLaws, AeadLaws}
use merabriar.Crypto.Session.{Session}
use merabriar.Crypto.Session.Derivation.{MayStep, message_key, next_chain, after_send}
use merabriar.Crypto.State.{Crypto}
use merabriar.Crypto.Encryption.{encrypt_message}
use merabriar.Crypto.Encryption.Success.{Holds, with_session, encrypt_message_lem}
use merabriar.Crypto.Peers.{Outgoing, IsSendable}
use merabriar.Crypto.Peers.Delivery.{with_session-Holds}

module _ {Cipher KeyPair : Type 0} (p : Platform Cipher KeyPair) (id : Text) where
  -- Calls for one recipient in a row, up to the first that fails.
  unfoldable pub encrypt_all : List Outgoing → Exec Crypto (List Bytes)
  encrypt_all [] s = (ok [], s)
  encrypt_all (m ∷ ms) s =
      let (first, t) = encrypt_message p id m.plaintext m.nonce s in
      continue first
        (λ c r. let (rest, q) = encrypt_all ms r in continue rest (λ cs e. (ok (c ∷ cs), e)) q) t

pub counter-MayStep : (checks : Bool) (c n : ℕ) → c + suc n < u32_mod → MayStep checks c
counter-MayStep true c n h = omega arith
counter-MayStep false c n h = omega arith

module _ {Cipher KeyPair : Type 0} {p : Platform Cipher KeyPair} (kdf : KdfLaws p)
    (aead : AeadLaws p) where
  -- The chain keys from the first one, and the key of the message number `n`.
  abbrev pub chain : Bytes → ℕ → Bytes
  chain first zero = first
  chain first (suc n) = next_chain kdf (chain first n) n

  abbrev pub nth_key : Bytes → ℕ → Bytes
  nth_key first n = message_key kdf (chain first n) n

  -- What goes over the wire when the messages from number `n` on are sealed.
  abbrev pub sealed_from : Bytes → ℕ → List Outgoing → List Bytes
  sealed_from first n [] = []
  sealed_from first n (m ∷ ms) =
      (m.nonce ++ aead.box (nth_key first n) m.nonce m.plaintext) ∷ sealed_from first (suc n) ms

  -- A session that stands on the chain where its counter says.
  pub record IsOnChain (first : Bytes) (n : ℕ) (session : Session) : Type 0 where
    pub counter : session.send_counter ≡ n
    pub key : session.send_chain_key ≡ chain first n

  IsOnChain-after_send :
      (first : Bytes) (n : ℕ) (session : Session)
      → n + 1 < u32_mod
      → IsOnChain first n session
      → IsOnChain first (suc n) (after_send kdf session)
  IsOnChain-after_send first n session room h = record {
    counter = omega (arith, h.counter);
    key = cc (h.counter, h.key);
  }

  -- Successive calls of `encrypt_message` with sendable messages for one recipient, whose session is held and
  -- stands at place `n` of a chain, with room in the counter, all succeed: the message number `n + i` is sealed under the key `n + i` of the chain,
  -- and the session that is left stands as many places further as messages were sent.
  pub encrypt_all-chain :
      (id : Text) (first : Bytes) (n : ℕ) (ms : List Outgoing) (session : Session) (s : Crypto)
      → Holds id session s
      → IsOnChain first n session
      → n + length ms < u32_mod
      → All IsSendable ms
      → ((encrypt_all p id ms s).0 ≡ ok (sealed_from first n ms))
        × (last : Session) × Holds id last (encrypt_all p id ms s).1
        × IsOnChain first (n + length ms) last
  unfolding encrypt_all
  encrypt_all-chain id first n [] session s holds on room sendable = (
    refl,
    session,
    holds,
    record { counter = omega (arith, on.counter); key = ground (arith, on.key) },
  )
  encrypt_all-chain id first n (m ∷ ms) session s holds on room sendable =
      let next = after_send kdf session in
      let t = with_session id next s in
      let one =
        encrypt_message_lem kdf aead id m.plaintext m.nonce session s holds
          (counter-MayStep p.overflow_checks session.send_counter (length ms)
            (omega (arith, on.counter)))
          sendable.0.nonce12 sendable.0.fits in
      let same : message_key kdf session.send_chain_key session.send_counter ≡ nth_key first n =
        cc (on.counter, on.key) in
      let ih =
        encrypt_all-chain id first (suc n) ms next t (with_session-Holds id next s holds.owner)
          (IsOnChain-after_send first n session (omega arith) on) (omega arith) sendable.1 in
      let count : suc n + length ms ≡ n + suc (length ms) = omega arith in
      let (sealed, last, holds_last, on_last) = ih in
      rw (one, same, sealed)
        (refl, last, holds_last, subst (λ k. IsOnChain first k last) count on_last)
