-- ===== src/Api/Calls.antt =====
-- api.rs against lib.rs: the same calls, over transfer records.
use merabriar.Prelude.{◌≡◌}
use merabriar.Rust.Text.{Bytes}
use merabriar.Rust.Result.{Result, ok, err, panic, is_ok, is_err, is_panic, Result-cases}
use merabriar.Platform.{Platform}
use merabriar.Crypto.State.{KeyBundle, PublicKeyBundle}
use merabriar.Crypto.Keys
use merabriar.Storage.{Sqlite}
use merabriar.Engine
use merabriar.Engine.{Core}
use merabriar.Api
use merabriar.Api.{KeyBundleDto, PublicKeyBundleDto}

-- A bundle as its transfer record.
abbrev pub key_bundle_dto : KeyBundle → KeyBundleDto
key_bundle_dto k = record {
  identity_public_key = k.identity_public_key;
  signed_prekey = k.signed_prekey;
  signature = k.signature;
}

abbrev pub public_key_bundle_dto : PublicKeyBundle → PublicKeyBundleDto
public_key_bundle_dto k = record {
  identity_public_key = k.identity_public_key;
  signed_prekey = k.signed_prekey;
  signature = k.signature;
  one_time_prekey = k.one_time_prekey;
}

abbrev pub converted : {A B : Type 0} → (A → B) → Result A → Result B
converted f (ok a) = ok (f a)
converted f (err e) = err e
converted f panic = panic

module _ {Cipher KeyPair Connection : Type 0} (p : Platform Cipher KeyPair)
    (q : Sqlite Connection) where
  pub generated :
      (pkcs8 : Result Bytes) (prekey : Bytes) (s : Core Connection)
      → let r = Engine.generate_identity_keys p pkcs8 prekey s in
        Api.generate_identity_keys p pkcs8 prekey s ≡ (converted key_bundle_dto r.0, r.1)
  unfolding Engine.generate_identity_keys Api.generate_identity_keys
  generated pkcs8 prekey s =
      elim (Result-cases (Keys.generate_identity_keys p pkcs8 prekey s.crypto).0) [
        | is_ok _ e ↦ rw e
        | is_err _ e ↦ rw e
        | is_panic e ↦ rw e
      ]

  pub published :
      (s : Core Connection)
      → let r = Engine.get_public_key_bundle p s in
        Api.get_public_key_bundle p s ≡ (converted public_key_bundle_dto r.0, r.1)
  unfolding Engine.get_public_key_bundle Api.get_public_key_bundle
  published s = elim (Result-cases (Keys.get_public_key_bundle p s.crypto).0) [
    | is_ok _ e ↦ rw e
    | is_err _ e ↦ rw e
    | is_panic e ↦ rw e
  ]
