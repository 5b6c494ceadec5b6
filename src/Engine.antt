-- ===== src/Engine.antt =====
-- rust_core/src/lib.rs: the statics of the modules together, and the functions that the crate exports.
pub mod Calls
pub mod Checks
pub mod Offline
use merabriar.Prelude.{Bool, List, Option}
use merabriar.Rust.Text.{Bytes, Text}
use merabriar.Rust.Result.{Result}
use merabriar.Rust.Exec.{Exec, ◌>>=◌, ◌>>◌}
use merabriar.Rust.Int.{ℤ}
use merabriar.Platform.{Platform}
use merabriar.Crypto.State.{Crypto, KeyBundle, PublicKeyBundle}
use merabriar.Crypto.Keys
use merabriar.Crypto.Sessions
use merabriar.Crypto.Encryption
use merabriar.Sync
use merabriar.Sync.{QueuedMessage, Queue}
use merabriar.Message.{Message}
use merabriar.Storage
use merabriar.Storage.{Sqlite, Database}

pub record Core (Connection : Type 0) : Type 0 where
  pub crypto : Crypto
  pub queue : Queue
  pub db : Database Connection

module _ {Connection A : Type 0} where
  -- A function of one module, as one of the crate.
  abbrev pub on_crypto : Exec Crypto A → Exec (Core Connection) A
  on_crypto f s = let (r, c) = f s.crypto in (r, record s { crypto = c })

  abbrev pub on_queue : Exec Queue A → Exec (Core Connection) A
  on_queue f s = let (r, c) = f s.queue in (r, record s { queue = c })

  abbrev pub on_db : Exec (Database Connection) A → Exec (Core Connection) A
  on_db f s = let (r, c) = f s.db in (r, record s { db = c })

module _ {Connection : Type 0} (q : Sqlite Connection) where
  unfoldable pub init_core : Text → Text → Exec (Core Connection) (Unit {0})
  init_core db_path encryption_key = do
    on_db (Storage.init q db_path encryption_key)
    on_queue Sync.init

  unfoldable pub store_message_internal : Message → Exec (Core Connection) (Unit {0})
  store_message_internal message = on_db (Storage.store_message q message)

  unfoldable pub get_messages_internal : Text → ℤ → ℤ → Exec (Core Connection) (List Message)
  get_messages_internal conversation_id limit offset =
      on_db (Storage.get_messages q conversation_id limit offset)

module _ {Connection : Type 0} where
  unfoldable pub queue_message_internal : QueuedMessage → Exec (Core Connection) (Unit {0})
  queue_message_internal message = on_queue (Sync.queue_message message)

  unfoldable pub get_queued_messages_internal : Core Connection → Result (List QueuedMessage)
  get_queued_messages_internal s = Sync.get_queued_messages s.queue

  unfoldable pub clear_queue_internal : List Text → Exec (Core Connection) (Unit {0})
  clear_queue_internal message_ids = on_queue (Sync.clear_queue message_ids)

  unfoldable pub has_session : Text → Core Connection → Bool
  has_session recipient_id s = Sessions.has_session recipient_id s.crypto

module _ {Connection Cipher KeyPair : Type 0} (p : Platform Cipher KeyPair) where
  unfoldable pub generate_identity_keys : Result Bytes → Bytes → Exec (Core Connection) KeyBundle
  generate_identity_keys pkcs8 prekey = on_crypto (Keys.generate_identity_keys p pkcs8 prekey)

  unfoldable pub get_public_key_bundle : Exec (Core Connection) PublicKeyBundle
  get_public_key_bundle = on_crypto (Keys.get_public_key_bundle p)

  unfoldable pub init_session : Text → PublicKeyBundle → Exec (Core Connection) (Unit {0})
  init_session recipient_id recipient_keys =
      on_crypto (Sessions.init_session p recipient_id recipient_keys)

  unfoldable pub encrypt_message : Text → Text → Bytes → Exec (Core Connection) Bytes
  encrypt_message recipient_id plaintext nonce =
      on_crypto (Encryption.encrypt_message p recipient_id plaintext nonce)

  unfoldable pub decrypt_message : Text → Bytes → Exec (Core Connection) Text
  decrypt_message sender_id ciphertext =
      on_crypto (Encryption.decrypt_message p sender_id ciphertext)
