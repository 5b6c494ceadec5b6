-- ===== src/Bridge/Web.antt =====
-- frb_generated.rs, module web: the functions that Dart calls on the web. wasm_bindgen has made the arguments
-- Rust values: `String`, `Box<[u8]>`, `Option<Box<[u8]>>`.
use merabriar.Prelude.{◌≡◌, refl, Option, none, some}
use merabriar.Rust.Text.{Bytes, Text}
use merabriar.Rust.Result.{Result, ok}
use merabriar.Rust.Exec.{Exec, pure, ◌>>=◌}
use merabriar.Rust.Int.{ℤ}
use merabriar.Platform.{Platform}
use merabriar.Storage.{Sqlite}
use merabriar.Bridge.Dart.{Dart}
use merabriar.Bridge.Wire
use merabriar.Bridge.Wire.{WireCall}

-- `cst_decode` of a `String` and of a `Box<[u8]>`: the value itself
unfoldable pub decoded : {Memory A : Type 0} → A → Exec Memory A
decoded a = pure a

-- `cst_decode` of an `Option<Box<[u8]>>`, the `map` of the one before
unfoldable pub decoded_option : {Memory : Type 0} → Option Bytes → Exec Memory (Option Bytes)
decoded_option none = pure none
decoded_option (some v) = do w ← decoded v; pure (some w)

pub decoded_option_lem :
    {Memory : Type 0} (o : Option Bytes) (m : Memory) → decoded_option o m ≡ (ok o, m)
unfolding decoded_option decoded
decoded_option_lem none m = refl
decoded_option_lem (some v) m = refl

module _ {Memory Connection Cipher KeyPair Obj Message : Type 0} (d : Dart Obj Message)
    (p : Platform Cipher KeyPair) where
  unfoldable pub decrypt_message : ℤ → Text → Bytes → WireCall Memory Connection Message
  decrypt_message port sender_id ciphertext =
      Wire.wire_decrypt_message d p port (decoded sender_id) (decoded ciphertext)

  unfoldable pub encrypt_message : Bytes → ℤ → Text → Text → WireCall Memory Connection Message
  encrypt_message nonce port recipient_id plaintext =
      Wire.wire_encrypt_message d p nonce port (decoded recipient_id) (decoded plaintext)

  unfoldable pub generate_identity_keys :
      Result Bytes → Bytes → ℤ → WireCall Memory Connection Message
  generate_identity_keys pkcs8 prekey port = Wire.wire_generate_identity_keys d p pkcs8 prekey port

  unfoldable pub get_public_key_bundle : ℤ → WireCall Memory Connection Message
  get_public_key_bundle port = Wire.wire_get_public_key_bundle d p port

  unfoldable pub init_session :
      ℤ → Text → Bytes → Bytes → Bytes → Option Bytes → WireCall Memory Connection Message
  init_session port recipient_id identity_public_key signed_prekey signature one_time_prekey =
      Wire.wire_init_session d p port (decoded recipient_id) (decoded identity_public_key)
        (decoded signed_prekey) (decoded signature) (decoded_option one_time_prekey)

module _ {Memory Connection Obj Message : Type 0} (d : Dart Obj Message) where
  unfoldable pub has_session : ℤ → Text → WireCall Memory Connection Message
  has_session port recipient_id = Wire.wire_has_session d port (decoded recipient_id)

  unfoldable pub init_core :
      Sqlite Connection → ℤ → Text → Text → WireCall Memory Connection Message
  init_core q port db_path encryption_key =
      Wire.wire_init_core d q port (decoded db_path) (decoded encryption_key)
