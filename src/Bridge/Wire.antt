-- ===== src/Bridge/Wire.antt =====
-- frb_generated.rs: the wire functions, which hand a call of api.rs to the handler of flutter_rust_bridge. The
-- handler runs the first closure at once, to decode the arguments, and what it returns on a worker thread, for
-- a message to the port of the call. A wire function is the record of what it hands over. What the random
-- generators give to the call of api.rs is an argument.
use merabriar.Prelude.{ℕ, Option, some}
use merabriar.Rust.Text.{Bytes, Text, text}
use merabriar.Rust.Result.{Result, ok, err, panic}
use merabriar.Rust.Exec.{Exec, pure, ◌>>=◌}
use merabriar.Rust.Int.{ℤ}
use merabriar.Platform.{Platform}
use merabriar.Storage.{Sqlite}
use merabriar.Engine.{Core}
use merabriar.Api
use merabriar.Bridge.Dart.{Dart, key_bundle_into_dart, public_key_bundle_into_dart}

pub data FfiCallMode : Type 0 where
  normal : FfiCallMode

pub record TaskInfo : Type 0 where
  pub debug_name : Text
  pub port : Option ℤ
  pub mode : FfiCallMode

-- What a wire function gives to `wrap_normal`: the info, and the closure that decodes the arguments and returns
-- the task.
pub record WireCall (Memory Connection Message : Type 0) : Type 0 where
  pub info : TaskInfo
  pub prepare : Exec Memory (Exec (Core Connection) Message)

abbrev pub info_of : Text → ℤ → TaskInfo
info_of name port = record { debug_name = name; port = some port; mode = normal }

module _ {Obj Message : Type 0} (d : Dart Obj Message) where
  -- `transform_result_dco` of the closure's result; a panic goes on to the handler
  unfoldable pub transform_result : {A : Type 0} → (A → Obj) → Result A → Result Message
  transform_result into (ok a) = ok (d.on_ok (into a))
  transform_result into (err e) = ok (d.on_err (d.of_text e))
  transform_result into panic = panic

  -- the task around a call of api.rs
  unfoldable pub task :
      {Connection A : Type 0}
      → (A → Obj)
      → Exec (Core Connection) A
      → Exec (Core Connection) Message
  unfolding transform_result
  task into call s = let (r, s') = call s in (transform_result into r, s')

module _ {Memory Connection Cipher KeyPair Obj Message : Type 0} (d : Dart Obj Message)
    (p : Platform Cipher KeyPair) where
  unfoldable pub wire_decrypt_message :
      ℤ → Exec Memory Text → Exec Memory Bytes → WireCall Memory Connection Message
  unfolding task
  wire_decrypt_message port sender_id ciphertext = record {
    info = info_of (text "decrypt_message") port;
    prepare = do
      api_sender_id ← sender_id
      api_ciphertext ← ciphertext
      pure (task d d.of_text (Api.decrypt_message p api_sender_id api_ciphertext));
  }

  unfoldable pub wire_encrypt_message :
      Bytes → ℤ → Exec Memory Text → Exec Memory Text → WireCall Memory Connection Message
  unfolding task
  wire_encrypt_message nonce port recipient_id plaintext = record {
    info = info_of (text "encrypt_message") port;
    prepare = do
      api_recipient_id ← recipient_id
      api_plaintext ← plaintext
      pure (task d d.of_bytes (Api.encrypt_message p api_recipient_id api_plaintext nonce));
  }

  unfoldable pub wire_generate_identity_keys :
      Result Bytes → Bytes → ℤ → WireCall Memory Connection Message
  unfolding task
  wire_generate_identity_keys pkcs8 prekey port = record {
    info = info_of (text "generate_identity_keys") port;
    prepare = pure (task d (key_bundle_into_dart d) (Api.generate_identity_keys p pkcs8 prekey));
  }

  unfoldable pub wire_get_public_key_bundle : ℤ → WireCall Memory Connection Message
  unfolding task
  wire_get_public_key_bundle port = record {
    info = info_of (text "get_public_key_bundle") port;
    prepare = pure (task d (public_key_bundle_into_dart d) (Api.get_public_key_bundle p));
  }

  unfoldable pub wire_init_session :
      ℤ
      → Exec Memory Text
      → Exec Memory Bytes
      → Exec Memory Bytes
      → Exec Memory Bytes
      → Exec Memory (Option Bytes)
      → WireCall Memory Connection Message
  unfolding task
  wire_init_session port recipient_id identity_public_key signed_prekey signature one_time_prekey =
      record {
        info = info_of (text "init_session") port;
        prepare = do
          api_recipient_id ← recipient_id
          api_identity_public_key ← identity_public_key
          api_signed_prekey ← signed_prekey
          api_signature ← signature
          api_one_time_prekey ← one_time_prekey
          pure (
              task d (λ _. d.of_unit)
                (Api.init_session p api_recipient_id api_identity_public_key api_signed_prekey
                  api_signature api_one_time_prekey));
      }

module _ {Memory Connection Obj Message : Type 0} (d : Dart Obj Message) where
  -- `has_session` cannot fail: its value is wrapped in `Ok`.
  unfoldable pub wire_has_session : ℤ → Exec Memory Text → WireCall Memory Connection Message
  unfolding task
  wire_has_session port recipient_id = record {
    info = info_of (text "has_session") port;
    prepare = do
      api_recipient_id ← recipient_id
      pure (task d d.of_bool (λ s. (ok (Api.has_session api_recipient_id s), s)));
  }

  unfoldable pub wire_init_core :
      Sqlite Connection
      → ℤ
      → Exec Memory Text
      → Exec Memory Text
      → WireCall Memory Connection Message
  unfolding task
  wire_init_core q port db_path encryption_key = record {
    info = info_of (text "init_core") port;
    prepare = do
      api_db_path ← db_path
      api_encryption_key ← encryption_key
      pure (task d (λ _. d.of_unit) (Api.init_core q api_db_path api_encryption_key));
  }

-- The dispatchers of the codec that takes a function id: no id is theirs, so each is `unreachable!()`.
unfoldable pub pde_ffi_dispatcher_primary_impl : ℤ → ℤ → ℕ → ℤ → ℤ → Result (Unit {0})
pde_ffi_dispatcher_primary_impl func_id port ptr rust_vec_len data_len = panic

unfoldable pub pde_ffi_dispatcher_sync_impl : ℤ → ℕ → ℤ → ℤ → Result Bytes
pde_ffi_dispatcher_sync_impl func_id ptr rust_vec_len data_len = panic
