-- ===== src/Api/Agreement.antt =====
-- Two users who sign up, exchange their published keys and open sessions, all through api.rs.
use merabriar.Prelude.{◌≤◌, ◌≡◌, ◌≢◌, refl, sym, ap, ◌∙◌, false, none, ◌++◌, length, arith}
use merabriar.Rust.Text.{Bytes, Text, text}
use merabriar.Rust.Result.{Result, ok, err, is_ok, is_err, is_panic, Result-cases}
use merabriar.Platform.{Platform, KdfLaws, AeadLaws, AeadRejects, AgreementLaws, max_plaintext}
use merabriar.Crypto.State.{IdentityKeys, PublicKeyBundle}
use merabriar.Crypto.Keys
use merabriar.Crypto.Peers.Handshake.{
  IsReady, Ends, first_send_key, first_recv_key, first_message-refused,
}
use merabriar.Engine.{Core}
use merabriar.Api.{
  KeyBundleDto, generate_identity_keys, get_public_key_bundle, init_session, encrypt_message,
  decrypt_message,
}

module _ {Connection Cipher KeyPair : Type 0} (p : Platform Cipher KeyPair) where
  -- A sign-up that succeeds leaves keys that the next calls can use, and what is published next is what
  -- was generated: the X25519 public key of the stored secret, and no one-time prekey.
  sign_up :
      (pkcs8 : Result Bytes) (prekey : Bytes) (s s' : Core Connection) (bundle : KeyBundleDto)
      → s.crypto.sessions.poisoned ≡ false
      → generate_identity_keys p pkcs8 prekey s ≡ (ok bundle, s')
      → (keys : IdentityKeys) × IsReady keys s'.crypto
        × (keys.signed_prekey_private ≡ prekey)
        × (bundle.signed_prekey ≡ p.x25519_public prekey)
        × (get_public_key_bundle p s' ≡ (
          ok (record {
            identity_public_key = bundle.identity_public_key;
            signed_prekey = bundle.signed_prekey;
            signature = bundle.signature;
            one_time_prekey = none;
          }),
          s',
        ))
  unfolding generate_identity_keys get_public_key_bundle Keys.generate_identity_keys
      Keys.get_public_key_bundle
  sign_up pkcs8 prekey s s' bundle healthy h = elim (Result-cases pkcs8) [
    | is_ok bytes made ↦ elim (Result-cases (p.from_pkcs8 bytes)) [
      | is_ok pair parsed ↦ (
        record {
          identity_keypair = bytes;
          signed_prekey_private = prekey;
          signed_prekey_public = p.x25519_public prekey;
          signed_prekey_signature = p.sign pair (p.x25519_public prekey);
        },
        record {
          keys_readable = ground arith;
          has_keys = ground arith;
          sessions_healthy = ground arith;
        },
        refl,
        ground arith,
        ground arith,
      )
      | is_err e parsed ↦ absurd (ground arith)
      | is_panic parsed ↦ absurd (ground arith)
    ]
    | is_err e made ↦ absurd (ground arith)
    | is_panic made ↦ absurd (ground arith)
  ]

-- What the other side is given of a generated bundle.
abbrev published : KeyBundleDto → PublicKeyBundle
published keys = record {
  identity_public_key = keys.identity_public_key;
  signed_prekey = keys.signed_prekey;
  signature = keys.signature;
  one_time_prekey = none;
}

module _ {Connection Cipher KeyPair : Type 0} {p : Platform Cipher KeyPair} (kdf : KdfLaws p)
    (aead : AeadLaws p) (dh : AgreementLaws p) (other : AeadRejects p aead) where
  -- Suppose that two users sign up with unpoisoned session locks, that each opens a session with the other's
  -- published keys, and that all four calls succeed. If HKDF separates the chains of their secret, the first
  -- message that one encrypts for the other, with a 12-byte nonce and within the limit of AES-GCM, is sealed
  -- and is refused by the other, whose state is unchanged.
  pub first_message-refused_after_sign_up :
      (pkcs8_a pkcs8_b : Result Bytes) (prekey_a prekey_b : Bytes)
      (a₀ b₀ a₁ b₁ a₂ b₂ : Core Connection) (keys_a keys_b : KeyBundleDto)
      (name_a name_b plaintext : Text) (nonce : Bytes)
      → a₀.crypto.sessions.poisoned ≡ false
      → b₀.crypto.sessions.poisoned ≡ false
      → generate_identity_keys p pkcs8_a prekey_a a₀ ≡ (ok keys_a, a₁)
      → generate_identity_keys p pkcs8_b prekey_b b₀ ≡ (ok keys_b, b₁)
      → init_session p name_b keys_b.identity_public_key keys_b.signed_prekey keys_b.signature none
          a₁
        ≡ (ok tt, a₂)
      → init_session p name_a keys_a.identity_public_key keys_a.signed_prekey keys_a.signature none
          b₁
        ≡ (ok tt, b₂)
      → first_send_key kdf (p.diffie_hellman prekey_a (p.x25519_public prekey_b))
        ≢ first_recv_key kdf (p.diffie_hellman prekey_a (p.x25519_public prekey_b))
      → length nonce ≡ 12
      → length plaintext ≤ max_plaintext
      → (sealed : Bytes) × (a₃ : Core Connection) × (encrypt_message p name_b plaintext nonce a₂
          ≡ (ok sealed, a₃))
        × (decrypt_message p name_a sealed b₂
            ≡ (err (text "Decryption failed: " ++ other.rejection), b₂))
  unfolding init_session encrypt_message decrypt_message
  first_message-refused_after_sign_up pkcs8_a pkcs8_b prekey_a prekey_b a₀ b₀ a₁ b₁ a₂ b₂ keys_a
        keys_b name_a name_b plaintext nonce healthy_a healthy_b made_a made_b opened_a opened_b
        separated n12 fits =
      let (own_a, ready_a, secret_a, public_a, _) =
        sign_up p pkcs8_a prekey_a a₀ a₁ keys_a healthy_a made_a in
      let (own_b, ready_b, secret_b, public_b, _) =
        sign_up p pkcs8_b prekey_b b₀ b₁ keys_b healthy_b made_b in
      let bundle_a = published keys_a in
      let bundle_b = published keys_b in
      let ends : Ends p a₁.crypto b₁.crypto own_a own_b bundle_a bundle_b = record {
        ready_a = ready_a;
        ready_b = ready_b;
        prekey_a = public_a ∙ ap p.x25519_public (sym secret_a);
        prekey_b = public_b ∙ ap p.x25519_public (sym secret_b);
      } in
      let (sealed, a₃, sent, refused) =
        first_message-refused kdf aead dh ends name_a name_b other plaintext nonce a₂.crypto
          b₂.crypto (λ e. separated (cc (e, secret_a, public_b))) n12 fits (ground arith)
          (ground arith) in
      (sealed, record a₂ { crypto = a₃ }, ground (arith, sent), ground (arith, refused))
