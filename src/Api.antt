-- ===== src/Api.antt =====
-- rust_core/src/api.rs: the interface for Flutter, over the functions of the modules.
pub mod Agreement
pub mod Calls
pub mod Transfer
use merabriar.Prelude.{Bool, Option}
use merabriar.Rust.Text.{Bytes, Text}
use merabriar.Rust.Result.{Result}
use merabriar.Rust.Exec.{Exec, pure, ◌>>=◌, ◌>>◌}
use merabriar.Platform.{Platform}
use merabriar.Crypto.State.{Crypto, KeyBundle, PublicKeyBundle}
use merabriar.Crypto.Keys
use merabriar.Crypto.Sessions
use merabriar.Crypto.Encryption
use merabriar.Storage
use merabriar.Storage.{Sqlite}
use merabriar.Sync
use merabriar.Engine.{Core, on_crypto, on_db, on_queue}

pub record KeyBundleDto : Type 0 where
  pub identity_public_key : Bytes
  pub signed_prekey : Bytes
  pub signature : Bytes

pub record PublicKeyBundleDto : Type 0 where
  pub identity_public_key : Bytes
  pub signed_prekey : Bytes
  pub signature : Bytes
  pub one_time_prekey : Option Bytes

unfoldable pub init_core :
    {Connection : Type 0} → Sqlite Connection → Text → Text → Exec (Core Connection) (Unit {0})
init_core q db_path encryption_key = do
  on_db (Storage.init q db_path encryption_key)
  on_queue Sync.init

unfoldable pub has_session : {Connection : Type 0} → Text → Core Connection → Bool
has_session recipient_id s = Sessions.has_session recipient_id s.crypto

module _ {Connection Cipher KeyPair : Type 0} (p : Platform Cipher KeyPair) where
  unfoldable pub generate_identity_keys : Result Bytes → Bytes → Exec (Core Connection) KeyBundleDto
  generate_identity_keys pkcs8 prekey = do
    bundle ← on_crypto (Keys.generate_identity_keys p pkcs8 prekey)
    pure (record {
      identity_public_key = bundle.identity_public_key;
      signed_prekey = bundle.signed_prekey;
      signature = bundle.signature;
    })

  unfoldable pub get_public_key_bundle : Exec (Core Connection) PublicKeyBundleDto
  get_public_key_bundle = do
    bundle ← on_crypto (Keys.get_public_key_bundle p)
    pure (record {
      identity_public_key = bundle.identity_public_key;
      signed_prekey = bundle.signed_prekey;
      signature = bundle.signature;
      one_time_prekey = bundle.one_time_prekey;
    })

  unfoldable pub init_session :
      Text → Bytes → Bytes → Bytes → Option Bytes → Exec (Core Connection) (Unit {0})
  init_session recipient_id identity_public_key signed_prekey signature one_time_prekey =
      on_crypto (
        Sessions.init_session p recipient_id (record {
          identity_public_key = identity_public_key;
          signed_prekey = signed_prekey;
          signature = signature;
          one_time_prekey = one_time_prekey;
        }))

  unfoldable pub encrypt_message : Text → Text → Bytes → Exec (Core Connection) Bytes
  encrypt_message recipient_id plaintext nonce =
      on_crypto (Encryption.encrypt_message p recipient_id plaintext nonce)

  unfoldable pub decrypt_message : Text → Bytes → Exec (Core Connection) Text
  decrypt_message sender_id ciphertext =
      on_crypto (Encryption.decrypt_message p sender_id ciphertext)
