-- ===== src/Bridge/Io.antt =====
-- frb_generated.rs, module io: the C functions that Dart calls on every platform but the web.
use merabriar.Prelude.{ℕ}
use merabriar.Rust.Text.{Bytes}
use merabriar.Rust.Result.{Result}
use merabriar.Rust.Int.{ℤ}
use merabriar.Platform.{Platform}
use merabriar.Storage.{Sqlite}
use merabriar.Bridge.Cst.{Ffi, decode_list, decode_text}
use merabriar.Bridge.Dart.{Dart}
use merabriar.Bridge.Wire
use merabriar.Bridge.Wire.{WireCall}

module _ {Memory Connection Cipher KeyPair Obj Message : Type 0} (f : Ffi Memory)
    (d : Dart Obj Message) (p : Platform Cipher KeyPair) where
  unfoldable pub decrypt_message : ℤ → ℕ → ℕ → WireCall Memory Connection Message
  decrypt_message port sender_id ciphertext =
      Wire.wire_decrypt_message d p port (decode_text f sender_id) (decode_list f ciphertext)

  unfoldable pub encrypt_message : Bytes → ℤ → ℕ → ℕ → WireCall Memory Connection Message
  encrypt_message nonce port recipient_id plaintext =
      Wire.wire_encrypt_message d p nonce port (decode_text f recipient_id)
        (decode_text f plaintext)

  unfoldable pub init_session : ℤ → ℕ → ℕ → ℕ → ℕ → ℕ → WireCall Memory Connection Message
  init_session port recipient_id identity_public_key signed_prekey signature one_time_prekey =
      Wire.wire_init_session d p port (decode_text f recipient_id)
        (decode_list f identity_public_key) (decode_list f signed_prekey) (decode_list f signature)
        (f.decode_option (decode_list f) one_time_prekey)

module _ {Memory Connection Cipher KeyPair Obj Message : Type 0} (d : Dart Obj Message)
    (p : Platform Cipher KeyPair) where
  unfoldable pub generate_identity_keys :
      Result Bytes → Bytes → ℤ → WireCall Memory Connection Message
  generate_identity_keys pkcs8 prekey port = Wire.wire_generate_identity_keys d p pkcs8 prekey port

  unfoldable pub get_public_key_bundle : ℤ → WireCall Memory Connection Message
  get_public_key_bundle port = Wire.wire_get_public_key_bundle d p port

module _ {Memory Connection Obj Message : Type 0} (f : Ffi Memory) (d : Dart Obj Message) where
  unfoldable pub has_session : ℤ → ℕ → WireCall Memory Connection Message
  has_session port recipient_id = Wire.wire_has_session d port (decode_text f recipient_id)

  unfoldable pub init_core : Sqlite Connection → ℤ → ℕ → ℕ → WireCall Memory Connection Message
  init_core q port db_path encryption_key =
      Wire.wire_init_core d q port (decode_text f db_path) (decode_text f encryption_key)
