-- ===== src/Crypto/Peers/Handshake.antt =====
-- What `init_session` of crypto/session.rs sets up on the two sides of a conversation, and what becomes of
-- the first message.
use merabriar.Prelude.{
  ◌≤◌, ◌≡◌, ◌≢◌, refl, sym, subst, ap, ◌∙◌, Bool, true, false, none, some, length, ◌++◌, arith,
}
use merabriar.Rust.Text.{Bytes, Text, text}
use merabriar.Rust.Result.{ok, err}
use merabriar.Platform.{Platform, KdfLaws, AeadLaws, AeadRejects, AgreementLaws, max_plaintext}
use merabriar.Crypto.Session.{Session}
use merabriar.Crypto.Session.Derivation.{fresh, new-fresh, message_key, after_send, MayStep}
use merabriar.Crypto.State.{Crypto, IdentityKeys, PublicKeyBundle}
use merabriar.Crypto.Sessions.{init_session, try_into_32}
use merabriar.Crypto.Encryption.{encrypt_message, decrypt_message}
use merabriar.Crypto.Encryption.Success.{
  Holds, with_session, wire, encrypt_message_lem, decrypt_message-other_key,
}
use merabriar.Crypto.Peers.Delivery.{with_session-Holds}

-- An engine with identity keys and no poisoned lock.
pub record IsReady (keys : IdentityKeys) (s : Crypto) : Type 0 where
  pub keys_readable : s.identity_keys.poisoned ≡ false
  pub has_keys : s.identity_keys.value ≡ some keys
  pub sessions_healthy : s.sessions.poisoned ≡ false

pub try_into_32_lem : (bytes : Bytes) → length bytes ≡ 32 → try_into_32 bytes ≡ ok bytes
unfolding try_into_32
try_into_32_lem bytes h = ground arith

module _ {Cipher KeyPair : Type 0} {p : Platform Cipher KeyPair} (kdf : KdfLaws p) where
  -- The session that `init_session` makes.
  abbrev pub agreed : IdentityKeys → Text → PublicKeyBundle → Session
  agreed ours id theirs =
      fresh kdf id (p.diffie_hellman ours.signed_prekey_private theirs.signed_prekey)

  -- The keys of the first message on the two chains of a secret.
  abbrev pub first_send_key : Bytes → Bytes
  first_send_key secret = message_key kdf (kdf.okm none secret (text "send_chain") 32) 0

  abbrev pub first_recv_key : Bytes → Bytes
  first_recv_key secret = message_key kdf (kdf.okm none secret (text "recv_chain") 32) 0

  -- With identity keys and a prekey of 32 bytes a session is stored anew, its counters at 0.
  pub init_session_lem :
      (id : Text) (ours : IdentityKeys) (theirs : PublicKeyBundle) (s : Crypto)
      → IsReady ours s
      → length theirs.signed_prekey ≡ 32
      → init_session p id theirs s ≡ (ok tt, with_session id (agreed ours id theirs) s)
  unfolding init_session
  init_session_lem id ours theirs s ready n32 = ground (
    arith,
    try_into_32_lem theirs.signed_prekey n32,
    new-fresh kdf id (p.diffie_hellman ours.signed_prekey_private theirs.signed_prekey),
  )

-- A new session may derive a key.
pub zero-MayStep : (checks : Bool) → MayStep checks 0
zero-MayStep true = omega arith
zero-MayStep false = omega arith

-- The two ends: each has keys, and the other's published prekey.
pub record Ends {Cipher KeyPair : Type 0} (p : Platform Cipher KeyPair) (a b : Crypto)
    (keys_a keys_b : IdentityKeys) (bundle_a bundle_b : PublicKeyBundle) : Type 0 where
  pub ready_a : IsReady keys_a a
  pub ready_b : IsReady keys_b b
  pub prekey_a : bundle_a.signed_prekey ≡ p.x25519_public keys_a.signed_prekey_private
  pub prekey_b : bundle_b.signed_prekey ≡ p.x25519_public keys_b.signed_prekey_private

module _ {Cipher KeyPair : Type 0} {p : Platform Cipher KeyPair} (kdf : KdfLaws p)
    (aead : AeadLaws p) (dh : AgreementLaws p) {a b : Crypto} {keys_a keys_b : IdentityKeys}
    {bundle_a bundle_b : PublicKeyBundle} (ends : Ends p a b keys_a keys_b bundle_a bundle_b)
    (name_a name_b : Text) where
  length-bundle_a : length bundle_a.signed_prekey ≡ 32
  length-bundle_a = ap length ends.prekey_a ∙ dh.length_public keys_a.signed_prekey_private

  length-bundle_b : length bundle_b.signed_prekey ≡ 32
  length-bundle_b = ap length ends.prekey_b ∙ dh.length_public keys_b.signed_prekey_private

  -- Both sides compute the same secret.
  same_secret :
      p.diffie_hellman keys_a.signed_prekey_private bundle_b.signed_prekey
      ≡ p.diffie_hellman keys_b.signed_prekey_private bundle_a.signed_prekey
  same_secret = cc (
    ends.prekey_a,
    ends.prekey_b,
    dh.agrees keys_a.signed_prekey_private keys_b.signed_prekey_private,
  )

  -- If each side has identity keys, no poisoned lock and the other's published prekey, `init_session` succeeds
  -- on both, and the two sessions have the same root key, the same sending chain and the same receiving chain.
  pub handshake-mirrors :
      (sa sb : Session) × (init_session p name_b bundle_b a ≡ (ok tt, with_session name_b sa a))
      × (init_session p name_a bundle_a b ≡ (ok tt, with_session name_a sb b))
      × (sa.root_key ≡ sb.root_key)
      × (sa.send_chain_key ≡ sb.send_chain_key)
      × (sa.recv_chain_key ≡ sb.recv_chain_key)
  handshake-mirrors = (
    agreed kdf keys_a name_b bundle_b,
    agreed kdf keys_b name_a bundle_a,
    init_session_lem kdf name_b keys_a bundle_b a ends.ready_a length-bundle_b,
    init_session_lem kdf name_a keys_b bundle_a b ends.ready_b length-bundle_a,
    cc same_secret,
    cc same_secret,
    cc same_secret,
  )

  -- If HKDF separates the two chains, the first message that one side encrypts after the handshake is
  -- refused by the other: both send on the chain that neither receives on. The receiver's state is unchanged.
  pub first_message-refused :
      (other : AeadRejects p aead) (plaintext : Text) (nonce : Bytes) (a' b' : Crypto)
      → first_send_key kdf (p.diffie_hellman keys_a.signed_prekey_private bundle_b.signed_prekey)
        ≢ first_recv_key kdf (p.diffie_hellman keys_a.signed_prekey_private bundle_b.signed_prekey)
      → length nonce ≡ 12
      → length plaintext ≤ max_plaintext
      → init_session p name_b bundle_b a ≡ (ok tt, a')
      → init_session p name_a bundle_a b ≡ (ok tt, b')
      → (sealed : Bytes) × (a'' : Crypto) × (encrypt_message p name_b plaintext nonce a'
          ≡ (ok sealed, a''))
        × (decrypt_message p name_a sealed b'
            ≡ (err (text "Decryption failed: " ++ other.rejection), b'))
  first_message-refused other plaintext nonce a' b' separated n12 fits init_a init_b =
      let secret = p.diffie_hellman keys_a.signed_prekey_private bundle_b.signed_prekey in
      let sa = agreed kdf keys_a name_b bundle_b in
      let sb = agreed kdf keys_b name_a bundle_a in
      let ea : with_session name_b sa a ≡ a' =
        ap (λ r. r.1)
          (sym (init_session_lem kdf name_b keys_a bundle_b a ends.ready_a length-bundle_b)
            ∙ init_a) in
      let eb : with_session name_a sb b ≡ b' =
        ap (λ r. r.1)
          (sym (init_session_lem kdf name_a keys_b bundle_a b ends.ready_b length-bundle_a)
            ∙ init_b) in
      let holds_a = subst (Holds name_b sa) ea (with_session-Holds name_b sa a refl) in
      let holds_b = subst (Holds name_a sb) eb (with_session-Holds name_a sb b refl) in
      (
        wire kdf aead sa nonce plaintext,
        with_session name_b (after_send kdf sa) a',
        encrypt_message_lem kdf aead name_b plaintext nonce sa a' holds_a
            (zero-MayStep p.overflow_checks) n12 fits,
        decrypt_message-other_key kdf aead other name_a plaintext (first_send_key kdf secret) nonce
            sb b' holds_b (zero-MayStep p.overflow_checks) n12 (rw (← same_secret) separated),
      )
