-- ===== src/Crypto/Keys/Published.antt =====
-- The keys that crypto/key_management.rs generates are the keys that it publishes.
use merabriar.Prelude.{
  ℕ, zero, suc, ◌+◌, ◌%◌, ◌≡◌, ◌⊎◌, inl, inr, refl, false, none, some, List, [], ◌∷◌, length,
  get_elem?, get_elem?-lt, ◌≤◌, arith,
}
use mathlib.Core.Option
use merabriar.Rust.Text.{Bytes}
use merabriar.Rust.Result.{Result, ok, is_ok, is_err, is_panic, Result-cases}
use merabriar.Rust.Words.{u32_mod}
use merabriar.Platform.{Platform}
use merabriar.Crypto.State.{Crypto, IdentityKeys, KeyBundle}
use merabriar.Rust.Lock.{new_lock}
use merabriar.Crypto.Keys.{
  generate_identity_keys, get_public_key_bundle, generate_prekeys, prekeys_from,
}

-- The keys that a sign-up stores.
abbrev pub stored_keys :
    {Cipher KeyPair : Type 0} → Platform Cipher KeyPair → Bytes → Bytes → KeyPair → IdentityKeys
stored_keys p pkcs8 prekey keypair = record {
  identity_keypair = pkcs8;
  signed_prekey_private = prekey;
  signed_prekey_public = p.x25519_public prekey;
  signed_prekey_signature = p.sign keypair (p.x25519_public prekey);
}

pub generates :
    {Cipher KeyPair : Type 0} (p : Platform Cipher KeyPair) (pkcs8 prekey : Bytes)
    (keypair : KeyPair) (s : Crypto)
    → p.from_pkcs8 pkcs8 ≡ ok keypair
    → s.identity_keys.poisoned ≡ false
    → generate_identity_keys p (ok pkcs8) prekey s ≡ (
      ok (record {
        identity_public_key = p.public_key keypair;
        signed_prekey = p.x25519_public prekey;
        signature = p.sign keypair (p.x25519_public prekey);
      }),
      record s { identity_keys = new_lock (some (stored_keys p pkcs8 prekey keypair)) },
    )
unfolding generate_identity_keys
generates p pkcs8 prekey keypair s h healthy = ground arith

module _ {Cipher KeyPair : Type 0} (p : Platform Cipher KeyPair) where
  -- After a successful generation the published bundle is the generated one, with no one-time prekey; to
  -- publish changes nothing, and the sessions are as before.
  get_public_key_bundle-generate_identity_keys :
      (pkcs8 : Result Bytes) (prekey : Bytes) (s s' : Crypto) (bundle : KeyBundle)
      → generate_identity_keys p pkcs8 prekey s ≡ (ok bundle, s')
      → (get_public_key_bundle p s' ≡ (
        ok (record {
          identity_public_key = bundle.identity_public_key;
          signed_prekey = bundle.signed_prekey;
          signature = bundle.signature;
          one_time_prekey = none;
        }),
        s',
      ))
        × (s'.sessions ≡ s.sessions)
  unfolding generate_identity_keys get_public_key_bundle
  get_public_key_bundle-generate_identity_keys pkcs8 prekey s s' bundle h =
      (ground arith, ground arith)

  -- A generation returns a bundle with the public key of the secret, or it leaves the keys and the sessions as
  -- they were.
  generate_identity_keys-atomic :
      (pkcs8 : Result Bytes) (prekey : Bytes) (s : Crypto)
      → ((bundle : KeyBundle) × ((generate_identity_keys p pkcs8 prekey s).0 ≡ ok bundle)
          × (bundle.signed_prekey ≡ p.x25519_public prekey))
        ⊎ ((generate_identity_keys p pkcs8 prekey s).1 ≡ s)
  unfolding generate_identity_keys
  generate_identity_keys-atomic pkcs8 prekey s =
      elim (Result-cases (generate_identity_keys p pkcs8 prekey s).0) [
        | is_ok bundle e ↦ inl (bundle, e, ground arith)
        | is_err _ e ↦ inr (ground arith)
        | is_panic e ↦ inr (ground arith)
      ]

  get_elem?-prekeys_from :
      (secrets : List Bytes) (i j : ℕ)
      → get_elem? (prekeys_from p i secrets) j
        ≡ Option.map
            (λ secret. ((i + j) % u32_mod, p.x25519_public secret, secret))
            (get_elem? secrets j)
  unfolding prekeys_from
  get_elem?-prekeys_from [] i j = refl
  get_elem?-prekeys_from (x ∷ xs) i zero = ground arith
  get_elem?-prekeys_from (x ∷ xs) i (suc j) = ground (arith, get_elem?-prekeys_from xs (i + 1) j)

  -- Of at most 2^32 prekeys the one in place `i` has the id `i`, and its public key is that of its secret.
  generate_prekeys-indexed :
      (secrets : List Bytes) (i : ℕ) (secret : Bytes)
      → length secrets ≤ u32_mod
      → get_elem? secrets i ≡ some secret
      → get_elem? (generate_prekeys p secrets) i ≡ some (i, p.x25519_public secret, secret)
  unfolding generate_prekeys
  generate_prekeys-indexed secrets i secret few h =
      rw (get_elem?-prekeys_from secrets 0 i, h) (ground (arith, get_elem?-lt secrets i secret h))
