-- ===== src/Bridge/Dart.antt =====
-- frb_generated.rs: values on their way to Dart (`IntoDart`), and on the web back (`CstDecode` of a `JsValue`).
-- The values of Dart and their making are those of the crate flutter_rust_bridge, a parameter.
pub mod Web
use merabriar.Prelude.{
  ℕ, Bool, true, false, Option, none, some, List, [], ◌∷◌, length, ◌==◌, if◌then◌else◌,
}
use merabriar.Rust.Text.{Bytes, Text}
use merabriar.Rust.Result.{Result, ok, err, panic, unwrap, ◌>>=◌}
use merabriar.Api.{KeyBundleDto, PublicKeyBundleDto}

-- `into_into_dart().into_dart()` of the types of the crate and of the standard library, and the two messages of
-- `transform_result_dco`.
pub record Dart (Obj Message : Type 0) : Type 0 where
  pub of_bytes : Bytes → Obj
  pub of_text : Text → Obj
  pub of_bool : Bool → Obj
  pub of_unit : Obj
  pub of_option : Option Bytes → Obj
  pub of_list : List Obj → Obj
  pub on_ok : Obj → Message
  pub on_err : Obj → Message

module _ {Obj Message : Type 0} (d : Dart Obj Message) where
  -- `into_dart` of the two transfer records
  unfoldable pub key_bundle_into_dart : KeyBundleDto → Obj
  key_bundle_into_dart k =
      d.of_list (
        d.of_bytes k.identity_public_key ∷ d.of_bytes k.signed_prekey ∷ d.of_bytes k.signature ∷ [])

  unfoldable pub public_key_bundle_into_dart : PublicKeyBundleDto → Obj
  public_key_bundle_into_dart k = d.of_list (
      d.of_bytes k.identity_public_key
      ∷ d.of_bytes k.signed_prekey
      ∷ d.of_bytes k.signature
      ∷ d.of_option k.one_time_prekey
      ∷ [])

-- What the decoders ask of a value of JavaScript.
pub record Js (Obj : Type 0) : Type 0 where
  -- `dyn_into::<Array>()`, the array's length and items
  pub into_array : Obj → Result (List Obj)
  pub get : List Obj → ℕ → Obj
  -- `unchecked_into::<Uint8Array>().to_vec()`, `as_string()`, `is_truthy()`
  pub to_vec : Obj → Bytes
  pub as_string : Obj → Option Text
  pub is_truthy : Obj → Bool
  -- the decoder of a value that may be null or undefined, given the decoder of one that is not
  pub decode_option : (Obj → Result Bytes) → Obj → Result (Option Bytes)

module _ {Obj : Type 0} (js : Js Obj) where
  -- `cst_decode` of a `JsValue` to `Vec<u8>`, `String` and `bool`
  unfoldable pub vec_of_js : Obj → Result Bytes
  vec_of_js v = ok (js.to_vec v)

  unfoldable pub string_of_js : Obj → Result Text
  string_of_js v = elim (js.as_string v) [ none ↦ panic | some s ↦ ok s ]

  unfoldable pub bool_of_js : Obj → Result Bool
  bool_of_js v = ok (js.is_truthy v)

  -- and to the two transfer records: `assert_eq!` of the length, then the items
  unfoldable pub key_bundle_of_array : List Obj → Result KeyBundleDto
  unfolding vec_of_js
  key_bundle_of_array self_ = do
    identity ← vec_of_js (js.get self_ 0)
    prekey ← vec_of_js (js.get self_ 1)
    signature ← vec_of_js (js.get self_ 2)
    ok (record { identity_public_key = identity; signed_prekey = prekey; signature = signature })

  unfoldable pub key_bundle_of_js : Obj → Result KeyBundleDto
  unfolding key_bundle_of_array
  key_bundle_of_js v = do
    self_ ← unwrap (js.into_array v)
    if length self_ == 3 then key_bundle_of_array self_ else panic

  unfoldable pub public_key_bundle_of_array : List Obj → Result PublicKeyBundleDto
  unfolding vec_of_js
  public_key_bundle_of_array self_ = do
    identity ← vec_of_js (js.get self_ 0)
    prekey ← vec_of_js (js.get self_ 1)
    signature ← vec_of_js (js.get self_ 2)
    one_time ← js.decode_option vec_of_js (js.get self_ 3)
    ok (record {
      identity_public_key = identity;
      signed_prekey = prekey;
      signature = signature;
      one_time_prekey = one_time;
    })

  unfoldable pub public_key_bundle_of_js : Obj → Result PublicKeyBundleDto
  unfolding public_key_bundle_of_array
  public_key_bundle_of_js v = do
    self_ ← unwrap (js.into_array v)
    if length self_ == 4 then public_key_bundle_of_array self_ else panic
