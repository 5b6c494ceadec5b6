-- ===== src/Crypto/Integration/Single.antt =====
-- What each test of Suite that generates keys does to the state.
use merabriar.Prelude.{◌+◌, ◌≤◌, ◌≡◌, refl, ◌∙◌, true, [], length, take-append, arith}
use merabriar.Rust.Text.{Text, text}
use merabriar.Rust.Result.{ok}
use merabriar.Platform.{Platform, KdfLaws, AeadLaws, AgreementLaws, SigningLaws, max_plaintext}
use merabriar.Crypto.Session.{Session}
use merabriar.Crypto.Session.Derivation.{message_key, after_send}
use merabriar.Crypto.State.{Crypto}
use merabriar.Crypto.Keys.Published.{stored_keys, generates}
use merabriar.Crypto.Sessions.{init_session, has_session}
use merabriar.Crypto.Encryption.{encrypt_message, decrypt_message}
use merabriar.Crypto.Encryption.Success.{with_session, wire, length-sealed, encrypt_message_lem}
use merabriar.Crypto.Peers.Delivery.{with_session-Holds}
use merabriar.Crypto.Peers.Handshake.{IsReady, agreed, init_session_lem, zero-MayStep}
use merabriar.Crypto.Integration.{
  test_generate_identity_keys_returns_valid_bundle, test_get_public_key_bundle_after_generation,
  test_multiple_sessions, test_encrypt_empty_plaintext, test_decrypt_invalid_ciphertext,
  test_ciphertext_format,
}
use merabriar.Crypto.Integration.Suite.{
  Draw, valid_bundle, bundle_published, multiple_sessions, empty_plaintext, invalid_ciphertext,
  ciphertext_format, IsDrawn, IsClean, has_session-with_session, IsClean-with_session, signed,
  shown, IsClean-signed, published, prologue,
}
use merabriar.Crypto.Integration.Suite.{Passes}
use merabriar.Crypto.Integration.Names.{
  has_session-own, same_bytes_self, IsFree, bob-IsFree, charlie-IsFree, dave-IsFree, all_apart,
  encrypting-IsFree, decrypting-IsFree, format-IsFree,
}

module _ {Cipher KeyPair : Type 0} {p : Platform Cipher KeyPair} (kdf : KdfLaws p)
    (aead : AeadLaws p) (dh : AgreementLaws p) (signing : SigningLaws p) where
  module _ (d : Draw) (drawn : IsDrawn p d) (s : Crypto) (clean : IsClean s) where
    length-shown : length (shown d drawn).signed_prekey ≡ 32
    length-shown = dh.length_public d.prekey

    -- A session with oneself, under a name.
    abbrev pub own : Text → Session
    own id = agreed kdf (stored_keys p d.pkcs8 d.prekey drawn.keypair) id (shown d drawn)

    pub opens :
        (id : Text) (c : Crypto)
        → IsReady (stored_keys p d.pkcs8 d.prekey drawn.keypair) c
        → init_session p id (shown d drawn) c ≡ (ok tt, with_session id (own id) c)
    opens id c ready =
        init_session_lem kdf id (stored_keys p d.pkcs8 d.prekey drawn.keypair) (shown d drawn) c
          ready (dh.length_public d.prekey)

    pub valid_bundle-Passes : Passes p (valid_bundle d) s
    unfolding test_generate_identity_keys_returns_valid_bundle
    valid_bundle-Passes =
        rw
          (
            generates p d.pkcs8 d.prekey drawn.keypair s drawn.parses clean.keys_healthy,
            signing.length_public_key drawn.keypair,
            dh.length_public d.prekey,
            signing.length_signature drawn.keypair (p.x25519_public d.prekey),
          )
          (refl, IsClean-signed d drawn s clean)

    pub bundle_published-Passes : Passes p (bundle_published d) s
    unfolding test_get_public_key_bundle_after_generation
    bundle_published-Passes =
        rw
          (
            generates p d.pkcs8 d.prekey drawn.keypair s drawn.parses clean.keys_healthy,
            published d drawn s,
            same_bytes_self (p.public_key drawn.keypair),
            same_bytes_self (p.x25519_public d.prekey),
            same_bytes_self (p.sign drawn.keypair (p.x25519_public d.prekey)),
          )
          (refl, IsClean-signed d drawn s clean)

    pub ready : IsReady (stored_keys p d.pkcs8 d.prekey drawn.keypair) (signed d drawn s)
    ready = record {
      keys_readable = refl;
      has_keys = refl;
      sessions_healthy = clean.sessions_healthy;
    }

    IsReady-with_session :
        (id : Text) (session : Session) (c : Crypto)
        → IsReady (stored_keys p d.pkcs8 d.prekey drawn.keypair) c
        → IsReady (stored_keys p d.pkcs8 d.prekey drawn.keypair) (with_session id session c)
    IsReady-with_session id session c r = record {
      keys_readable = r.keys_readable;
      has_keys = r.has_keys;
      sessions_healthy = refl;
    }

    pub multiple_sessions-Passes : Passes p (multiple_sessions d) s
    unfolding test_multiple_sessions
    multiple_sessions-Passes =
        let c = signed d drawn s in
        let clean_c = IsClean-signed d drawn s clean in
        let b = with_session (text "bob") (own (text "bob")) c in
        let bc = with_session (text "charlie") (own (text "charlie")) b in
        let bcd = with_session (text "dave") (own (text "dave")) bc in
        let r_b = IsReady-with_session (text "bob") (own (text "bob")) c ready in
        let r_bc = IsReady-with_session (text "charlie") (own (text "charlie")) b r_b in
        let clean_b =
          IsClean-with_session (text "bob") (own (text "bob")) c bob-IsFree.0 bob-IsFree.1
            bob-IsFree.2 clean_c in
        let clean_bc =
          IsClean-with_session (text "charlie") (own (text "charlie")) b charlie-IsFree.0
            charlie-IsFree.1 charlie-IsFree.2 clean_b in
        let clean_bcd =
          IsClean-with_session (text "dave") (own (text "dave")) bc dave-IsFree.0 dave-IsFree.1
            dave-IsFree.2 clean_bc in
        let has_bob : has_session (text "bob") bcd ≡ true =
          has_session-with_session (text "dave") (text "bob") (own (text "dave")) bc refl
            all_apart.0
          ∙ has_session-with_session (text "charlie") (text "bob") (own (text "charlie")) b refl
              all_apart.1
          ∙ has_session-own (text "bob") (own (text "bob")) c in
        let has_charlie : has_session (text "charlie") bcd ≡ true =
          has_session-with_session (text "dave") (text "charlie") (own (text "dave")) bc refl
            all_apart.2
          ∙ has_session-own (text "charlie") (own (text "charlie")) b in
        rw
          (
            prologue d drawn s clean,
            opens (text "bob") c ready,
            opens (text "charlie") b r_b,
            opens (text "dave") bc r_bc,
            has_bob,
            has_charlie,
            has_session-own (text "dave") (own (text "dave")) bc,
            clean_bcd.no_eve,
          )
          (refl, clean_bcd)

    -- The session under a name, and the state when a message has been sent with it.
    abbrev pub joined : Text → Crypto
    joined id = with_session id (own id) (signed d drawn s)

    abbrev pub sent : Text → Crypto
    sent id = with_session id (after_send kdf (own id)) (joined id)

    pub joined-IsClean : (id : Text) → IsFree id → IsClean (joined id)
    joined-IsClean id free =
        IsClean-with_session id (own id) (signed d drawn s) free.0 free.1 free.2
          (IsClean-signed d drawn s clean)

    pub sent-IsClean : (id : Text) → IsFree id → IsClean (sent id)
    sent-IsClean id free =
        IsClean-with_session id (after_send kdf (own id)) (joined id) free.0 free.1 free.2
          (joined-IsClean id free)

    pub sends :
        (id plaintext : Text)
        → length plaintext ≤ max_plaintext
        → encrypt_message p id plaintext d.nonce (joined id)
          ≡ (ok (wire kdf aead (own id) d.nonce plaintext), sent id)
    sends id plaintext fits =
        encrypt_message_lem kdf aead id plaintext d.nonce (own id) (joined id)
          (with_session-Holds id (own id) (signed d drawn s) refl) (zero-MayStep p.overflow_checks)
          drawn.nonce12 fits

    pub length-wire :
        (id plaintext : Text)
        → length (wire kdf aead (own id) d.nonce plaintext) ≡ 12 + length plaintext + 16
    length-wire id plaintext =
        length-sealed kdf aead (message_key kdf (own id).send_chain_key 0) d.nonce plaintext
          drawn.nonce12

    pub empty_plaintext-Passes : Passes p (empty_plaintext d) s
    unfolding test_encrypt_empty_plaintext
    empty_plaintext-Passes =
        rw
          (
            prologue d drawn s clean,
            opens (text "enc_empty_user") (signed d drawn s) ready,
            sends (text "enc_empty_user") [] (omega arith),
            length-wire (text "enc_empty_user") [],
          )
          (refl, sent-IsClean (text "enc_empty_user") encrypting-IsFree)

    pub invalid_ciphertext-Passes : Passes p (invalid_ciphertext d) s
    unfolding test_decrypt_invalid_ciphertext decrypt_message
    invalid_ciphertext-Passes =
        rw (prologue d drawn s clean, opens (text "dec_invalid_user") (signed d drawn s) ready)
          (refl, joined-IsClean (text "dec_invalid_user") decrypting-IsFree)

    pub ciphertext_format-Passes : Passes p (ciphertext_format d) s
    unfolding test_ciphertext_format
    ciphertext_format-Passes =
        let id = text "format_test_user" in
        let key = message_key kdf (own id).send_chain_key 0 in
        rw
          (
            prologue d drawn s clean,
            opens id (signed d drawn s) ready,
            sends id (text "Test format") (omega arith),
            take-append 12 d.nonce (aead.box key d.nonce (text "Test format")) drawn.nonce12,
            drawn.nonce12,
            length-wire id (text "Test format"),
          )
          (refl, sent-IsClean id format-IsFree)
