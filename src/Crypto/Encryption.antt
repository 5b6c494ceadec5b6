-- ===== src/Crypto/Encryption.antt =====
-- crypto/encryption.rs: a message on the wire is nonce (12 bytes), ciphertext, tag (16 bytes). The nonce
-- that the random generator fills in is an argument.
pub mod Success
pub mod Errors
pub mod Checks
use merabriar.Prelude.{◌+◌, ◌++◌, length, take, drop, ltb, if◌then◌else◌}
use merabriar.Rust.Text.{Bytes, Text, text}
use merabriar.Rust.Result.{err, map_err}
use merabriar.Rust.Exec.{Exec, lift, pure, ◌>>=◌, ◌>>◌}
use merabriar.Rust.Utf8.{from_utf8}
use merabriar.Platform.{Platform}
use merabriar.Crypto.Session.{derive_send_key, derive_recv_key}
use merabriar.Crypto.State.{Crypto}
use merabriar.Crypto.Sessions.{get_session_mut, update_session}

module _ {Cipher KeyPair : Type 0} (p : Platform Cipher KeyPair) where
  unfoldable pub encrypt_message : Text → Text → Bytes → Exec Crypto Bytes
  encrypt_message recipient_id plaintext nonce = do
    session ← get_session_mut recipient_id
    derived ← lift (derive_send_key p session)
    cipher ← lift (map_err (text "Failed to create cipher: ") (p.new_from_slice derived.0))
    ciphertext ← lift (map_err (text "Encryption failed: ") (p.encrypt cipher nonce plaintext))
    update_session derived.1
    pure (nonce ++ ciphertext)

  -- `decrypt_message` after its length check
  unfoldable pub decrypt_checked : Text → Bytes → Exec Crypto Text
  decrypt_checked sender_id ciphertext = do
    session ← get_session_mut sender_id
    derived ← lift (derive_recv_key p session)
    cipher ← lift (map_err (text "Failed to create cipher: ") (p.new_from_slice derived.0))
    let nonce = take 12 ciphertext
    let encrypted = drop 12 ciphertext
    plaintext ← lift (map_err (text "Decryption failed: ") (p.decrypt cipher nonce encrypted))
    update_session derived.1
    lift (map_err (text "Invalid UTF-8: ") (from_utf8 p.utf8_error plaintext))

  unfoldable pub decrypt_message : Text → Bytes → Exec Crypto Text
  unfolding decrypt_checked
  decrypt_message sender_id ciphertext =
      if ltb (length ciphertext) (12 + 16)
      then lift (err (text "Ciphertext too short"))
      else decrypt_checked sender_id ciphertext
