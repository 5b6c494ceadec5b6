-- ===== src/Crypto/Peers/Receiving.antt =====
-- A sequence of calls of `decrypt_message` against the chain of keys that it is meant to walk.
use merabriar.Prelude.{
  subst, ℕ, suc, ◌+◌, ◌<◌, ◌≡◌, refl, List, [], ◌∷◌, ◌++◌, map, All, length, arith,
}
use merabriar.Rust.Text.{Bytes, Text}
use merabriar.Rust.Result.{ok}
use merabriar.Rust.Exec.{Exec, continue}
use merabriar.Rust.Words.{u32_mod}
use merabriar.Platform.{Platform, KdfLaws, AeadLaws}
use merabriar.Crypto.Session.{Session}
use merabriar.Crypto.Session.Derivation.{after_recv}
use merabriar.Crypto.State.{Crypto}
use merabriar.Crypto.Encryption.{decrypt_message}
use merabriar.Crypto.Encryption.Success.{Holds, with_session}
use merabriar.Crypto.Peers.{Outgoing, IsSendable}
use merabriar.Crypto.Peers.Chain.{counter-MayStep, chain, nth_key, sealed_from}
use merabriar.Crypto.Peers.Delivery.{with_session-Holds, expected, decrypt_message-expected}

module _ {Cipher KeyPair : Type 0} (p : Platform Cipher KeyPair) (id : Text) where
  -- Calls for one contact in a row, up to the first that fails.
  unfoldable pub decrypt_all : List Bytes → Exec Crypto (List Text)
  decrypt_all [] s = (ok [], s)
  decrypt_all (c ∷ cs) s =
      let (first, t) = decrypt_message p id c s in
      continue first
        (λ m r. let (rest, q) = decrypt_all cs r in continue rest (λ ms e. (ok (m ∷ ms), e)) q) t

module _ {Cipher KeyPair : Type 0} {p : Platform Cipher KeyPair} (kdf : KdfLaws p)
    (aead : AeadLaws p) where
  -- A session whose receiving chain stands where its counter says.
  pub record ReceivesOnChain (first : Bytes) (n : ℕ) (session : Session) : Type 0 where
    pub counter : session.recv_counter ≡ n
    pub key : session.recv_chain_key ≡ chain kdf aead first n

  ReceivesOnChain-after_recv :
      (first : Bytes) (n : ℕ) (session : Session)
      → n + 1 < u32_mod
      → ReceivesOnChain first n session
      → ReceivesOnChain first (suc n) (after_recv kdf session)
  ReceivesOnChain-after_recv first n session room h = record {
    counter = omega (arith, h.counter);
    key = cc (h.counter, h.key);
  }

  -- Successive calls of `decrypt_message` for one contact, whose session is held and whose receiving chain stands
  -- at place `n`, with room in the counter, on ciphertexts of sendable texts sealed under the keys `n`, `n + 1` and
  -- so on of that chain, all succeed: the texts are returned unchanged and in order, and the session that is left
  -- stands as many places further as ciphertexts came.
  pub decrypt_all-chain :
      (id : Text) (first : Bytes) (n : ℕ) (ms : List Outgoing) (session : Session) (s : Crypto)
      → Holds id session s
      → ReceivesOnChain first n session
      → n + length ms < u32_mod
      → All IsSendable ms
      → let r = decrypt_all p id (sealed_from kdf aead first n ms) s in
        (r.0 ≡ ok (map (λ m. m.plaintext) ms))
        × (last : Session) × Holds id last r.1
        × ReceivesOnChain first (n + length ms) last
  unfolding decrypt_all
  decrypt_all-chain id first n [] session s holds on room sendable = (
    refl,
    session,
    holds,
    record { counter = omega (arith, on.counter); key = ground (arith, on.key) },
  )
  decrypt_all-chain id first n (m ∷ ms) session s holds on room sendable =
      let next = after_recv kdf session in
      let t = with_session id next s in
      let same : expected kdf aead session m
          ≡ m.nonce ++ aead.box (nth_key kdf aead first n) m.nonce m.plaintext =
        cc (on.counter, on.key) in
      let one =
        decrypt_message-expected kdf aead id m session s holds
          (counter-MayStep p.overflow_checks session.recv_counter (length ms)
            (omega (arith, on.counter)))
          sendable.0 in
      let (texts, last, holds_last, on_last) =
        decrypt_all-chain id first (suc n) ms next t (with_session-Holds id next s holds.owner)
          (ReceivesOnChain-after_recv first n session (omega arith) on) (omega arith) sendable.1 in
      let count : suc n + length ms ≡ n + suc (length ms) = omega arith in
      rw (← same, one, texts)
        (refl, last, holds_last, subst (λ k. ReceivesOnChain first k last) count on_last)
