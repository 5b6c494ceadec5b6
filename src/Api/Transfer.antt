-- ===== src/Api/Transfer.antt =====
-- The functions of lib.rs and of api.rs as two implementations of one interface, over the key bundles of the core
-- and over the transfer records of api.rs.
use std.Path.{PathP}
use std.Equiv.{Iso, ◌≃◌, iso_to_equiv}
use std.Univalence.{ua}
use merabriar.Prelude.{◌≡◌, refl, sym, subst, fun_ext, Bool}
use merabriar.Rust.Text.{Bytes, Text}
use merabriar.Rust.Result.{Result, ok, err, panic}
use merabriar.Rust.Exec.{Exec}
use merabriar.Platform.{Platform}
use merabriar.Crypto.State.{KeyBundle, PublicKeyBundle}
use merabriar.Storage.{Sqlite}
use merabriar.Engine
use merabriar.Engine.{Core}
use merabriar.Api
use merabriar.Api.{KeyBundleDto, PublicKeyBundleDto}
use merabriar.Api.Calls.{key_bundle_dto, public_key_bundle_dto, converted, generated, published}

abbrev pub key_bundle_iso : Iso KeyBundle KeyBundleDto
key_bundle_iso = record {
  fun = key_bundle_dto;
  inv = λ k. record {
    identity_public_key = k.identity_public_key;
    signed_prekey = k.signed_prekey;
    signature = k.signature;
  };
  rinv = λ k. refl;
  linv = λ k. refl;
}

abbrev pub public_key_bundle_iso : Iso PublicKeyBundle PublicKeyBundleDto
public_key_bundle_iso = record {
  fun = public_key_bundle_dto;
  inv = λ k. record {
    identity_public_key = k.identity_public_key;
    signed_prekey = k.signed_prekey;
    signature = k.signature;
    one_time_prekey = k.one_time_prekey;
  };
  rinv = λ k. refl;
  linv = λ k. refl;
}

-- By univalence a bundle of the core and its transfer record are one type, between the two ends.
abbrev pub OwnBundle : KeyBundle ≡ KeyBundleDto
OwnBundle = ua (iso_to_equiv key_bundle_iso)

abbrev pub ShownBundle : PublicKeyBundle ≡ PublicKeyBundleDto
ShownBundle = ua (iso_to_equiv public_key_bundle_iso)

-- The seven exported functions, over types of key bundles.
pub record Interface (Connection Own Shown : Type 0) : Type 0 where
  pub init_core : Text → Text → Exec (Core Connection) (Unit {0})
  pub generate_identity_keys : Result Bytes → Bytes → Exec (Core Connection) Own
  pub get_public_key_bundle : Exec (Core Connection) Shown
  pub init_session : Text → Shown → Exec (Core Connection) (Unit {0})
  pub has_session : Text → Core Connection → Bool
  pub encrypt_message : Text → Text → Bytes → Exec (Core Connection) Bytes
  pub decrypt_message : Text → Bytes → Exec (Core Connection) Text

along : {A B : Type 0} (e : A ≃ B) (r : Result A) → PathP (λ i. Result (ua e i)) r (converted e.0 r)
along e (ok a) = λ i. ok (vin i a (e.0 a))
along e (err x) = λ i. err x
along e panic = λ i. panic

-- A function whose result is converted is the function itself, along the line of types.
along_exec :
    {S A B : Type 0} (e : A ≃ B) (f : Exec S A) (g : Exec S B)
    → ((s : S) → g s ≡ (converted e.0 (f s).0, (f s).1))
    → PathP (λ i. Exec S (ua e i)) f g
along_exec {S} e f g h =
    subst (λ k. PathP (λ i. Exec S (ua e i)) f k) (fun_ext (λ s. sym (h s)))
      λ i s. (along e (f s).0 i, (f s).1)

module _ {Cipher KeyPair Connection : Type 0} (p : Platform Cipher KeyPair)
    (q : Sqlite Connection) where
  abbrev pub of_lib : Interface Connection KeyBundle PublicKeyBundle
  of_lib = record {
    init_core = Engine.init_core q;
    generate_identity_keys = Engine.generate_identity_keys p;
    get_public_key_bundle = Engine.get_public_key_bundle p;
    init_session = Engine.init_session p;
    has_session = Engine.has_session;
    encrypt_message = Engine.encrypt_message p;
    decrypt_message = Engine.decrypt_message p;
  }

  abbrev pub of_api : Interface Connection KeyBundleDto PublicKeyBundleDto
  of_api = record {
    init_core = Api.init_core q;
    generate_identity_keys = Api.generate_identity_keys p;
    get_public_key_bundle = Api.get_public_key_bundle p;
    init_session = λ id k.
        Api.init_session p id k.identity_public_key k.signed_prekey k.signature k.one_time_prekey;
    has_session = Api.has_session;
    encrypt_message = Api.encrypt_message p;
    decrypt_message = Api.decrypt_message p;
  }

  -- The key bundles of the core and the transfer records of api.rs are equal types, by the conversion of api.rs,
  -- and along these equalities the seven functions of lib.rs are equal to those of api.rs.
  pub interfaces_equal :
      PathP (λ i. Interface Connection (OwnBundle i) (ShownBundle i)) of_lib of_api
  unfolding Engine.init_session Engine.encrypt_message Engine.decrypt_message Engine.has_session
      Engine.init_core Api.init_session Api.encrypt_message Api.decrypt_message Api.has_session
      Api.init_core
  interfaces_equal = λ i. record {
    init_core = Engine.init_core q;
    generate_identity_keys = λ pkcs8 prekey.
        along_exec (iso_to_equiv key_bundle_iso) (Engine.generate_identity_keys p pkcs8 prekey)
          (Api.generate_identity_keys p pkcs8 prekey) (generated p q pkcs8 prekey) i;
    get_public_key_bundle =
        along_exec (iso_to_equiv public_key_bundle_iso) (Engine.get_public_key_bundle p)
          (Api.get_public_key_bundle p) (published p q) i;
    init_session = λ id k.
        let dto = vproj i k (iso_to_equiv public_key_bundle_iso) in
        Api.init_session p id dto.identity_public_key dto.signed_prekey dto.signature
          dto.one_time_prekey;
    has_session = Engine.has_session;
    encrypt_message = Engine.encrypt_message p;
    decrypt_message = Engine.decrypt_message p;
  }
