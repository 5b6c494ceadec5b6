-- ===== src/Crypto/Peers/Talk/Keys.antt =====
-- The keys that the two users of Talk derive.
use merabriar.Prelude.{ℕ, zero, suc, ◌<◌, ◌≡◌, ◌≢◌, ap, ◌∙◌, Bool, true, false, none, length, arith}
use merabriar.Rust.Text.{Bytes, Text, text}
use merabriar.Rust.Words.{u32_mod}
use merabriar.Platform.{Platform, KdfLaws, AgreementLaws}
use merabriar.Crypto.Session.Derivation.{message_key, next_chain, next_counter}
use merabriar.Crypto.State.{IdentityKeys, PublicKeyBundle}
use merabriar.Crypto.Peers.Handshake.{first_recv_key}
use merabriar.Crypto.Peers.Talk.{other}

module _ {Cipher KeyPair : Type 0} {p : Platform Cipher KeyPair} (kdf : KdfLaws p) where
  -- The sending chain of a shared secret: the chain key and the counter after `n` messages.
  abbrev pub place : Bytes → ℕ → Bytes × ℕ
  place secret zero = (kdf.okm none secret (text "send_chain") 32, 0)
  place secret (suc n) =
      let before = place secret n in (next_chain kdf before.0 before.1, next_counter kdf before.1)

  -- The key of the message number `n`.
  abbrev pub sending_key : Bytes → ℕ → Bytes
  sending_key secret n = message_key kdf (place secret n).0 (place secret n).1

  pub place-u32 : (secret : Bytes) (n : ℕ) → (place secret n).1 < u32_mod
  place-u32 secret zero = omega arith
  place-u32 secret (suc n) = omega arith

  -- The first keys of the sending chain are not the first of the receiving chain.
  abbrev pub IsSeparated : ℕ → Bytes → Type 0
  IsSeparated limit shared = (n : ℕ) → n < limit → sending_key shared n ≢ first_recv_key kdf shared

-- The names, the keys and the published bundles of the two: each bundle carries the public key of its prekey.
pub record Users {Cipher KeyPair : Type 0} (p : Platform Cipher KeyPair) : Type 0 where
  pub name : Bool → Text
  pub keys : Bool → IdentityKeys
  pub bundle : Bool → PublicKeyBundle
  pub prekey :
      (x : Bool) → (bundle x).signed_prekey ≡ p.x25519_public (keys x).signed_prekey_private

module _ {Cipher KeyPair : Type 0} {p : Platform Cipher KeyPair} (users : Users p) where
  -- The secret that a side computes.
  abbrev pub secret : Bool → Bytes
  secret x =
      p.diffie_hellman (users.keys x).signed_prekey_private (users.bundle (other x)).signed_prekey

module _ {Cipher KeyPair : Type 0} {p : Platform Cipher KeyPair} (dh : AgreementLaws p)
    (users : Users p) where
  pub secret-other : (x : Bool) → secret users (other x) ≡ secret users x
  secret-other true = cc (
    users.prekey true,
    users.prekey false,
    dh.agrees (users.keys true).signed_prekey_private (users.keys false).signed_prekey_private,
  )
  secret-other false = cc (
    users.prekey true,
    users.prekey false,
    dh.agrees (users.keys true).signed_prekey_private (users.keys false).signed_prekey_private,
  )

  pub length-prekey : (x : Bool) → length (users.bundle x).signed_prekey ≡ 32
  length-prekey x =
      ap length (users.prekey x) ∙ dh.length_public (users.keys x).signed_prekey_private
