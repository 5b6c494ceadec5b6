-- ===== src/Crypto/Race/Overlap.antt =====
-- Interleavings of calls for one contact.
use merabriar.Prelude.{
  ℕ, ◌≤◌, ◌≡◌, refl, sym, ◌∙◌, true, false, some, ◌≢◌, take-append, drop-append, ◌++◌, length,
}
use merabriar.Rust.Text.{Bytes, Text}
use merabriar.Rust.Result.{ok}
use merabriar.Rust.HashMap
use merabriar.Rust.Utf8.{is_utf8}
use merabriar.Platform.{Platform, KdfLaws, AeadLaws, max_plaintext}
use merabriar.Crypto.Session.{Session}
use merabriar.Crypto.Session.Derivation.{
  message_key, after_send, after_recv, MayStep, derive_send_key_lem, derive_recv_key_lem,
}
use merabriar.Crypto.State.{Crypto}
use merabriar.Crypto.Encryption.Success.{
  Holds, with_session, wire, get_session_mut-Holds, not-short, update_session-healthy,
}
use merabriar.Crypto.Peers.Delivery.{with_session-Holds}
use merabriar.Crypto.Race.{
  sending, receiving, called, holding, returned, resume, begin, finish, World, Reach,
}
use merabriar.Crypto.Race.Schedule.{
  update_self, update-other, after_copy, after_both, after_overlap, solo, interleaved,
  overlap-returned,
}

module _ {Cipher KeyPair : Type 0} {p : Platform Cipher KeyPair} (kdf : KdfLaws p)
    (aead : AeadLaws p) where
  -- What the contact sends next on the receiving chain.
  abbrev pub incoming : Session → Bytes → Text → Bytes
  incoming session nonce m =
      nonce ++ aead.box (message_key kdf session.recv_chain_key session.recv_counter) nonce m

  pub begin-sending :
      (id m : Text) (nonce : Bytes) (session : Session) (s : Crypto)
      → Holds id session s
      → begin p (sending id m nonce) s ≡ holding session (sending id m nonce)
  unfolding begin resume
  begin-sending id m nonce session s holds = rw (get_session_mut-Holds id session s holds)

  begin-receiving :
      (id m : Text) (nonce : Bytes) (session other : Session) (s : Crypto)
      → Holds id session s
      → length nonce ≡ 12
      → begin p (receiving id (incoming other nonce m)) s
        ≡ holding session (receiving id (incoming other nonce m))
  unfolding begin resume
  begin-receiving id m nonce session other s holds n12 = rw (
    not-short kdf aead (message_key kdf other.recv_chain_key other.recv_counter) nonce m n12,
    get_session_mut-Holds id session s holds,
  )

  -- The second half on a healthy store, whatever session the store holds by then: what the call would do to a
  -- store that holds the copy.
  pub finish-sending :
      (id m : Text) (nonce : Bytes) (session : Session) (s : Crypto)
      → s.sessions.poisoned ≡ false
      → session.recipient_id ≡ id
      → MayStep p.overflow_checks session.send_counter
      → length nonce ≡ 12
      → length m ≤ max_plaintext
      → finish p session (sending id m nonce) s
        ≡ (ok (wire kdf aead session nonce m), with_session id (after_send kdf session) s)
  unfolding finish
  finish-sending id m nonce session s healthy owner step n12 fits =
      let key = message_key kdf session.send_chain_key session.send_counter in
      let k32 = kdf.length_okm _ _ _ 32 in
      rw (
        derive_send_key_lem kdf session step,
        aead.makes key k32,
        aead.seals key nonce m k32 n12 fits,
        update_session-healthy id (after_send kdf session) s healthy owner,
      )

  finish-receiving :
      (id m : Text) (nonce : Bytes) (session : Session) (s : Crypto)
      → s.sessions.poisoned ≡ false
      → session.recipient_id ≡ id
      → MayStep p.overflow_checks session.recv_counter
      → length nonce ≡ 12
      → is_utf8 m ≡ true
      → finish p session (receiving id (incoming session nonce m)) s
        ≡ (ok m, with_session id (after_recv kdf session) s)
  unfolding finish
  finish-receiving id m nonce session s healthy owner step n12 utf8 =
      let key = message_key kdf session.recv_chain_key session.recv_counter in
      let k32 = kdf.length_okm _ _ _ 32 in
      rw (
        derive_recv_key_lem kdf session step,
        aead.makes key k32,
        take-append 12 nonce (aead.box key nonce m) n12,
        drop-append 12 nonce (aead.box key nonce m) n12,
        aead.unseals key nonce m k32 n12,
        update_session-healthy id (after_recv kdf session) s healthy owner,
        utf8,
      )

  -- Two threads that are about to encrypt for one recipient, with whom there is a session whose counter may
  -- step, with 12-byte nonces and plaintexts within the limit of AES-GCM, can overlap so that both seal with the
  -- same message key and the chain moves on once, though two messages were sent.
  pub overlap-reuses_key :
      (w : World) (i j : ℕ) (id m n : Text) (nonce_m nonce_n : Bytes) (session : Session)
      → i ≢ j
      → w.tasks i ≡ called (sending id m nonce_m)
      → w.tasks j ≡ called (sending id n nonce_n)
      → Holds id session w.crypto
      → MayStep p.overflow_checks session.send_counter
      → length nonce_m ≡ 12
      → length nonce_n ≡ 12
      → length m ≤ max_plaintext
      → length n ≤ max_plaintext
      → (u : World) × Reach p w u
        × (u.tasks i ≡ returned (ok (wire kdf aead session nonce_m m)))
        × (u.tasks j ≡ returned (ok (wire kdf aead session nonce_n n)))
        × (HashMap.get id u.crypto.sessions.value ≡ some (after_send kdf session))
  overlap-reuses_key w i j id m n nonce_m nonce_n session ne at_i at_j holds step m12 n12 fits_m
        fits_n =
      let r = sending id m nonce_m in
      let q = sending id n nonce_n in
      let sent = after_send kdf session in
      let c = with_session id sent w.crypto in
      let second =
        finish-sending id n nonce_n session w.crypto holds.healthy holds.owner step n12 fits_n in
      let first = finish-sending id m nonce_m session c refl holds.owner step m12 fits_m in
      let (done_i, done_j, _) = overlap-returned p w i j session r q ne in
      (
        after_overlap p w i j session r q,
        interleaved p w i j session r q ne at_i at_j
            (begin-sending id m nonce_m session w.crypto holds)
            (begin-sending id n nonce_n session w.crypto holds),
        done_i ∙ rw (second, first),
        done_j ∙ rw second,
        rw (second, first) (HashMap.get-insert_self id sent c.sessions.value),
      )

  -- A thread is about to encrypt for a contact, and two are about to decrypt the same ciphertext, sealed under the
  -- next key of the receiving chain: nonces have 12 bytes, the received text is UTF-8, the sent one is within the
  -- limit of AES-GCM, and the counters of the session may step. They can overlap so that all three succeed: the
  -- same ciphertext is accepted twice.
  pub overlap-replays :
      (w : World) (i j k : ℕ) (id m n : Text) (nonce_m nonce_n : Bytes) (session : Session)
      → i ≢ j
      → i ≢ k
      → j ≢ k
      → w.tasks i ≡ called (sending id n nonce_n)
      → w.tasks j ≡ called (receiving id (incoming session nonce_m m))
      → w.tasks k ≡ called (receiving id (incoming session nonce_m m))
      → Holds id session w.crypto
      → MayStep p.overflow_checks session.send_counter
      → MayStep p.overflow_checks session.recv_counter
      → length nonce_m ≡ 12
      → length nonce_n ≡ 12
      → is_utf8 m ≡ true
      → length n ≤ max_plaintext
      → (u : World) × Reach p w u
        × (u.tasks i ≡ returned (ok (wire kdf aead session nonce_n n)))
        × (u.tasks j ≡ returned (ok m))
        × (u.tasks k ≡ returned (ok m))
  overlap-replays w i j k id m n nonce_m nonce_n session ij ik jk at_i at_j at_k holds send recv m12
        n12 utf8 fits =
      let r = sending id n nonce_n in
      let q = receiving id (incoming session nonce_m m) in
      let sent = after_send kdf session in
      let c = with_session id (after_recv kdf session) w.crypto in
      let d = with_session id sent c in
      let u = after_overlap p w i j session r q in
      let first =
        finish-receiving id m nonce_m session w.crypto holds.healthy holds.owner recv m12 utf8 in
      let second = finish-sending id n nonce_n session c refl holds.owner send n12 fits in
      let again = finish-receiving id m nonce_m sent d refl holds.owner recv m12 utf8 in
      let left : u.crypto ≡ d = rw (first, second) in
      let (done_i, done_j, others) = overlap-returned p w i j session r q ij in
      let t = begin p q u.crypto in
      let v = after_copy p u k q in
      let x = returned (finish p sent q u.crypto).0 in
      let reach : Reach p w u =
        interleaved p w i j session r q ij at_i at_j
          (begin-sending id n nonce_n session w.crypto holds)
          (begin-receiving id m nonce_m session session w.crypto holds m12) in
      let started : begin p q u.crypto ≡ holding sent q = rw left (
        begin-receiving id m nonce_m sent session d (with_session-Holds id sent c holds.owner)
          m12) in
      (
        after_both p u k sent q,
        solo p w u k sent q reach (others k ik jk ∙ at_k) started,
        update-other v.tasks k i x (λ e. ik (sym e))
            ∙ update-other u.tasks k i t (λ e. ik (sym e))
            ∙ done_i
            ∙ rw (first, second),
        update-other v.tasks k j x (λ e. jk (sym e))
            ∙ update-other u.tasks k j t (λ e. jk (sym e))
            ∙ done_j
            ∙ rw first,
        update_self v.tasks k x ∙ rw (left, again),
      )
