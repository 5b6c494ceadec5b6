-- ===== src/Crypto/Keys.antt =====
-- crypto/key_management.rs: the operations on the identity keys. What the random generators give is an
-- argument: `pkcs8` the outcome of `Ed25519KeyPair::generate_pkcs8`, `prekey` the bytes of a new
-- `StaticSecret`.
pub mod Published
pub mod Checks
use merabriar.Prelude.{ℕ, ◌+◌, ◌%◌, Option, none, some, List, [], ◌∷◌}
use merabriar.Rust.Text.{Bytes, text}
use merabriar.Rust.Result.{Result, ok, err, map_err}
use merabriar.Rust.Exec.{Exec, lift, pure, ◌>>=◌, ◌>>◌}
use merabriar.Rust.Lock.{read, write}
use merabriar.Rust.Words.{u32_mod}
use merabriar.Platform.{Platform}
use merabriar.Crypto.State.{Crypto, IdentityKeys, KeyBundle, PublicKeyBundle}

-- `*IDENTITY_KEYS.write()? = Some(keys)`
unfoldable pub store_keys : IdentityKeys → Exec Crypto (Unit {0})
store_keys keys s =
    let (r, l) = write (λ _. (ok tt, some keys)) s.identity_keys in
    (r, record s { identity_keys = l })

-- `IDENTITY_KEYS.read()?`, then `ok_or(missing)?`
abbrev pub ok_or {ℓ} : {A : Type ℓ} → Bytes → Option A → Result A
ok_or missing none = err missing
ok_or missing (some a) = ok a

module _ {Cipher KeyPair : Type 0} (p : Platform Cipher KeyPair) where
  unfoldable pub generate_identity_keys : Result Bytes → Bytes → Exec Crypto KeyBundle
  unfolding store_keys
  generate_identity_keys pkcs8 prekey = do
    pkcs8_bytes ← lift (map_err (text "Failed to generate identity key: ") pkcs8)
    keypair ← lift (map_err (text "Failed to parse identity key: ") (p.from_pkcs8 pkcs8_bytes))
    let public = p.x25519_public prekey
    let signature = p.sign keypair public
    store_keys (record {
      identity_keypair = pkcs8_bytes;
      signed_prekey_private = prekey;
      signed_prekey_public = public;
      signed_prekey_signature = signature;
    })
    pure (record {
      identity_public_key = p.public_key keypair;
      signed_prekey = public;
      signature = signature;
    })

  unfoldable pub get_public_key_bundle : Exec Crypto PublicKeyBundle
  get_public_key_bundle = do
    keys ← λ s. (read s.identity_keys, s)
    identity_keys ← lift (ok_or (text "Keys not initialized") keys)
    keypair ← lift (
        map_err (text "Failed to parse identity key: ")
          (p.from_pkcs8 identity_keys.identity_keypair))
    pure (record {
      identity_public_key = p.public_key keypair;
      signed_prekey = identity_keys.signed_prekey_public;
      signature = identity_keys.signed_prekey_signature;
      one_time_prekey = none;
    })

  -- The loop of `generate_prekeys` from index `i`, over the secrets that the generator gives, one for
  -- each round.
  unfoldable pub prekeys_from : ℕ → List Bytes → List (ℕ × Bytes × Bytes)
  prekeys_from i [] = []
  prekeys_from i (private ∷ rest) =
      (i % u32_mod, p.x25519_public private, private) ∷ prekeys_from (i + 1) rest

  unfoldable pub generate_prekeys : List Bytes → List (ℕ × Bytes × Bytes)
  unfolding prekeys_from
  generate_prekeys secrets = prekeys_from 0 secrets
