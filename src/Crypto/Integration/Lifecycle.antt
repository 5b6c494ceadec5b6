-- ===== src/Crypto/Integration/Lifecycle.antt =====
-- The tests of Suite that look at more than one thing: a session after two sign-ups, a ciphertext and its plaintext,
-- and everything from the keys to the first message.
use merabriar.Prelude.{◌≡◌, refl, ap, true, false, length, if_neg, arith}
use merabriar.Rust.Text.{Text, text, Text_discrete}
use merabriar.Platform.{Platform, KdfLaws, AeadLaws, AgreementLaws, SigningLaws}
use merabriar.Crypto.State.{Crypto}
use merabriar.Crypto.Keys.Published.{generates}
use merabriar.Crypto.Encryption.Success.{wire}
use merabriar.Crypto.Integration.{
  same_bytes, hello_earth, end_to_end, test_session_init_and_check,
  test_encrypt_message_produces_ciphertext, test_full_lifecycle_keygen_to_encrypt,
}
use merabriar.Crypto.Integration.Suite.{
  Draw, session_check, ciphertext_produced, full_lifecycle, IsDrawn, IsClean, Passes, signed,
  published, prologue,
}
use merabriar.Crypto.Integration.Names.{
  has_session-own, same_bytes_self, alice-IsFree, produced-IsFree, lifecycle-IsFree,
}
use merabriar.Crypto.Integration.Single.{
  own, opens, ready, joined-IsClean, sent-IsClean, sends, length-wire,
}

module _ {Cipher KeyPair : Type 0} {p : Platform Cipher KeyPair} (kdf : KdfLaws p)
    (aead : AeadLaws p) (dh : AgreementLaws p) (signing : SigningLaws p) where
  pub session_check-Passes :
      (d d' : Draw)
      → IsDrawn p d
      → IsDrawn p d'
      → (s : Crypto) → IsClean s
      → Passes p (session_check d d') s
  unfolding test_session_init_and_check
  session_check-Passes d d' drawn drawn' s clean =
      let id = text "alice" in
      let c = signed d' drawn' s in
      let last = joined-IsClean kdf aead dh signing d' drawn' s clean id alice-IsFree in
      rw
        (
          generates p d.pkcs8 d.prekey drawn.keypair s drawn.parses clean.keys_healthy,
          generates p d'.pkcs8 d'.prekey drawn'.keypair (signed d drawn s) drawn'.parses refl,
          published d' drawn' s,
          opens kdf aead dh signing d' drawn' s clean id c
              (ready kdf aead dh signing d' drawn' s clean),
          has_session-own id (own kdf aead dh signing d' drawn' s clean id) c,
          last.no_unknown,
        )
        (refl, last)

  module _ (d : Draw) (drawn : IsDrawn p d) (s : Crypto) (clean : IsClean s) where
    -- A ciphertext is longer than its plaintext.
    differs :
        (id plaintext : Text)
        → same_bytes
            (wire kdf aead (own kdf aead dh signing d drawn s clean id) d.nonce plaintext)
            plaintext
          ≡ false
    differs id plaintext =
        let sealed = wire kdf aead (own kdf aead dh signing d drawn s clean id) d.nonce plaintext in
        let longer = length-wire kdf aead dh signing d drawn s clean id plaintext in
        if_neg (Text_discrete sealed plaintext) (λ e. absurd (omega (arith, longer, ap length e)))
          true false

    pub ciphertext_produced-Passes : Passes p (ciphertext_produced d) s
    unfolding test_encrypt_message_produces_ciphertext
    ciphertext_produced-Passes =
        let id = text "enc_test_user" in
        rw
          (
            prologue d drawn s clean,
            opens kdf aead dh signing d drawn s clean id (signed d drawn s)
                (ready kdf aead dh signing d drawn s clean),
            sends kdf aead dh signing d drawn s clean id hello_earth (omega arith),
            differs id hello_earth,
            length-wire kdf aead dh signing d drawn s clean id hello_earth,
          )
          (refl, sent-IsClean kdf aead dh signing d drawn s clean id produced-IsFree)

    pub full_lifecycle-Passes : Passes p (full_lifecycle d) s
    unfolding test_full_lifecycle_keygen_to_encrypt
    full_lifecycle-Passes =
        let id = text "lifecycle_peer" in
        let c = signed d drawn s in
        rw
          (
            generates p d.pkcs8 d.prekey drawn.keypair s drawn.parses clean.keys_healthy,
            signing.length_public_key drawn.keypair,
            published d drawn s,
            same_bytes_self (p.public_key drawn.keypair),
            opens kdf aead dh signing d drawn s clean id c
                (ready kdf aead dh signing d drawn s clean),
            has_session-own id (own kdf aead dh signing d drawn s clean id) c,
            sends kdf aead dh signing d drawn s clean id end_to_end (omega arith),
            length-wire kdf aead dh signing d drawn s clean id end_to_end,
          )
          (refl, sent-IsClean kdf aead dh signing d drawn s clean id lifecycle-IsFree)
