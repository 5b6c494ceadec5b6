-- ===== src/Engine/Calls.antt =====
-- The functions that lib.rs exports, as a client calls them one after the other, whatever they return.
pub mod Soundness
use merabriar.Prelude.{List, [], ◌∷◌}
use merabriar.Rust.Text.{Bytes, Text}
use merabriar.Rust.Result.{Result}
use merabriar.Rust.Int.{ℤ}
use merabriar.Platform.{Platform}
use merabriar.Crypto.State.{PublicKeyBundle}
use merabriar.Sync.{QueuedMessage}
use merabriar.Message.{Message}
use merabriar.Storage.{Sqlite}
use merabriar.Engine
use merabriar.Engine.{Core}

-- A call with its arguments, and what the random generators give to it. `has_session` and
-- `get_queued_messages_internal` only read.
pub data Call : Type 0 where
  starting : Text → Text → Call
  generating : Result Bytes → Bytes → Call
  publishing : Call
  opening : Text → PublicKeyBundle → Call
  encrypting : Text → Text → Bytes → Call
  decrypting : Text → Bytes → Call
  queueing : QueuedMessage → Call
  clearing : List Text → Call
  storing : Message → Call
  listing : Text → ℤ → ℤ → Call

module _ {Cipher KeyPair Connection : Type 0} (p : Platform Cipher KeyPair)
    (q : Sqlite Connection) where
  -- The engine after a call.
  abbrev pub after : Call → Core Connection → Core Connection
  after (starting db_path key) s = (Engine.init_core q db_path key s).1
  after (generating pkcs8 prekey) s = (Engine.generate_identity_keys p pkcs8 prekey s).1
  after publishing s = (Engine.get_public_key_bundle p s).1
  after (opening id bundle) s = (Engine.init_session p id bundle s).1
  after (encrypting id plaintext nonce) s = (Engine.encrypt_message p id plaintext nonce s).1
  after (decrypting id ciphertext) s = (Engine.decrypt_message p id ciphertext s).1
  after (queueing message) s = (Engine.queue_message_internal message s).1
  after (clearing ids) s = (Engine.clear_queue_internal ids s).1
  after (storing message) s = (Engine.store_message_internal q message s).1
  after (listing id limit offset) s = (Engine.get_messages_internal q id limit offset s).1

  abbrev pub run : List Call → Core Connection → Core Connection
  run [] s = s
  run (c ∷ cs) s = run cs (after c s)
