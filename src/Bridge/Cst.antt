-- ===== src/Bridge/Cst.antt =====
-- frb_generated.rs, module io: arguments as C structs that Dart leaves behind pointers. The helpers of the
-- crate flutter_rust_bridge that make and take over such memory are parameters, and so is the memory. A
-- pointer is a machine address, 0 the null pointer.
pub mod Ownership
use merabriar.Prelude.{Bool, ℕ, ◌≡◌, Option, none, some, ite, ◌==◌, if◌then◌else◌}
use merabriar.Rust.Text.{Bytes, Text}
use merabriar.Rust.Result.{Result, ok, err, panic, unwrap}
use merabriar.Rust.Exec.{Exec, lift, pure, ◌>>=◌}
use merabriar.Rust.Int.{ℤ}
use merabriar.Rust.Utf8.{from_utf8}
use merabriar.Api.{KeyBundleDto, PublicKeyBundleDto}

-- `wire_cst_list_prim_u_8_strict` and `wire_cst_list_prim_u_8_loose`, which have the same fields
pub record WireList : Type 0 where
  pub ptr : ℕ
  pub len : ℤ

pub record WireKeyBundle : Type 0 where
  pub identity_public_key : ℕ
  pub signed_prekey : ℕ
  pub signature : ℕ

pub record WirePublicKeyBundle : Type 0 where
  pub identity_public_key : ℕ
  pub signed_prekey : ℕ
  pub signature : ℕ
  pub one_time_prekey : ℕ

-- The helpers. `decode_option` is the decoder of a pointer that may be null, given the decoder of one that is
-- not; `utf8_error` is the Debug text of the standard library's `FromUtf8Error`.
pub record Ffi (Memory : Type 0) : Type 0 where
  pub box_from_leak_ptr : ℕ → Exec Memory WireList
  pub vec_from_leak_ptr : ℕ → ℤ → Exec Memory Bytes
  pub new_leak_vec_ptr : ℕ → ℤ → Exec Memory ℕ
  pub new_leak_box_ptr : WireList → Exec Memory ℕ
  pub decode_option : (ℕ → Exec Memory Bytes) → ℕ → Exec Memory (Option Bytes)
  pub utf8_error : Bytes → Text

-- the two `new_with_null_ptr`
unfoldable pub new_wire_key_bundle : WireKeyBundle
new_wire_key_bundle = record { identity_public_key = 0; signed_prekey = 0; signature = 0 }

unfoldable pub new_wire_public_key_bundle : WirePublicKeyBundle
new_wire_public_key_bundle = record {
  identity_public_key = 0;
  signed_prekey = 0;
  signature = 0;
  one_time_prekey = 0;
}

-- `cst_decode` of `bool` and `u8`: the value itself
unfoldable pub decode_c_bool : {Memory : Type 0} → Bool → Exec Memory Bool
decode_c_bool b = pure b

unfoldable pub decode_c_u8 : {Memory : Type 0} → ℕ → Exec Memory ℕ
decode_c_u8 b = pure b

module _ {Memory : Type 0} (f : Ffi Memory) where
  -- `cst_decode` of both lists to `Vec<u8>`
  unfoldable pub decode_list : ℕ → Exec Memory Bytes
  decode_list p = do wrap ← f.box_from_leak_ptr p; f.vec_from_leak_ptr wrap.ptr wrap.len

  -- `cst_decode` of a list to `String`
  unfoldable pub decode_text : ℕ → Exec Memory Text
  unfolding decode_list
  decode_text p = do vec ← decode_list p; lift (unwrap (from_utf8 f.utf8_error vec))

  -- `cst_decode` of the two structs
  unfoldable pub decode_key_bundle : WireKeyBundle → Exec Memory KeyBundleDto
  unfolding decode_list
  decode_key_bundle w = do
    identity ← decode_list w.identity_public_key
    prekey ← decode_list w.signed_prekey
    signature ← decode_list w.signature
    pure (record { identity_public_key = identity; signed_prekey = prekey; signature = signature })

  unfoldable pub decode_public_key_bundle : WirePublicKeyBundle → Exec Memory PublicKeyBundleDto
  unfolding decode_list
  decode_public_key_bundle w = do
    identity ← decode_list w.identity_public_key
    prekey ← decode_list w.signed_prekey
    signature ← decode_list w.signature
    one_time ← f.decode_option decode_list w.one_time_prekey
    pure (record {
      identity_public_key = identity;
      signed_prekey = prekey;
      signature = signature;
      one_time_prekey = one_time;
    })

  -- `frbgen_merabriar_cst_new_list_prim_u_8_strict` and `..._loose`, with which Dart asks for memory
  unfoldable pub new_list : ℤ → Exec Memory ℕ
  new_list len = do p ← f.new_leak_vec_ptr 0 len; f.new_leak_box_ptr (record { ptr = p; len = len })
