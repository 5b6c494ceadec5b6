-- ===== src/Bridge/Dart/Web.antt =====
-- The transfer records on the web, on their way to Dart and back.
use merabriar.Prelude.{ℕ, ◌≡◌, refl, Option, none, some, List, [], ◌∷◌, get_elem?}
use merabriar.Rust.Text.{Bytes}
use merabriar.Rust.Result.{Result, ok, panic}
use merabriar.Api.{KeyBundleDto, PublicKeyBundleDto}
use merabriar.Bridge.Dart.{
  Dart, Js, key_bundle_into_dart, public_key_bundle_into_dart, key_bundle_of_js,
  public_key_bundle_of_js, vec_of_js,
}

-- On the web the values of Dart are JavaScript's: a list is an array of its items, a byte sequence a
-- `Uint8Array`, and an option null or its value.
pub record JsLaws {Obj Message : Type 0} (d : Dart Obj Message) (js : Js Obj) : Type 0 where
  pub array : (items : List Obj) → js.into_array (d.of_list items) ≡ ok items
  pub item : (items : List Obj) (i : ℕ) (v : Obj) → get_elem? items i ≡ some v → js.get items i ≡ v
  pub bytes : (v : Bytes) → js.to_vec (d.of_bytes v) ≡ v
  pub null : (dec : Obj → Result Bytes) → js.decode_option dec (d.of_option none) ≡ ok none
  pub value :
      (dec : Obj → Result Bytes) (v w : Bytes)
      → dec (d.of_bytes v) ≡ ok w
      → js.decode_option dec (d.of_option (some v)) ≡ ok (some w)

module _ {Obj Message : Type 0} {d : Dart Obj Message} {js : Js Obj} (laws : JsLaws d js) where
  vec_of_js-of_bytes : (v : Bytes) → vec_of_js js (d.of_bytes v) ≡ ok v
  unfolding vec_of_js
  vec_of_js-of_bytes v = rw (laws.bytes v)

  option-of_option : (o : Option Bytes) → js.decode_option (vec_of_js js) (d.of_option o) ≡ ok o
  option-of_option none = laws.null (vec_of_js js)
  option-of_option (some v) = laws.value (vec_of_js js) v v (vec_of_js-of_bytes v)

  key_bundle_back : (k : KeyBundleDto) → key_bundle_of_js js (key_bundle_into_dart d k) ≡ ok k
  unfolding key_bundle_of_js key_bundle_into_dart
  key_bundle_back k =
      let items =
        d.of_bytes k.identity_public_key
        ∷ d.of_bytes k.signed_prekey
        ∷ d.of_bytes k.signature
        ∷ [] in
      rw (
        laws.array items,
        laws.item items 0 (d.of_bytes k.identity_public_key) refl,
        laws.item items 1 (d.of_bytes k.signed_prekey) refl,
        laws.item items 2 (d.of_bytes k.signature) refl,
        laws.bytes k.identity_public_key,
        laws.bytes k.signed_prekey,
        laws.bytes k.signature,
      )

  public_key_bundle_back :
      (b : PublicKeyBundleDto) → public_key_bundle_of_js js (public_key_bundle_into_dart d b) ≡ ok b
  unfolding public_key_bundle_of_js public_key_bundle_into_dart
  public_key_bundle_back b =
      let items =
        d.of_bytes b.identity_public_key
        ∷ d.of_bytes b.signed_prekey
        ∷ d.of_bytes b.signature
        ∷ d.of_option b.one_time_prekey
        ∷ [] in
      rw (
        laws.array items,
        laws.item items 0 (d.of_bytes b.identity_public_key) refl,
        laws.item items 1 (d.of_bytes b.signed_prekey) refl,
        laws.item items 2 (d.of_bytes b.signature) refl,
        laws.item items 3 (d.of_option b.one_time_prekey) refl,
        laws.bytes b.identity_public_key,
        laws.bytes b.signed_prekey,
        laws.bytes b.signature,
        option-of_option b.one_time_prekey,
      )

  -- On the web the keys of a sign-up and a published bundle are read back from the arrays that are made of
  -- them; and an array is no bundle of one kind if it is one of the other: the decoder panics.
  pub of_js-into_dart :
      (k : KeyBundleDto) (b : PublicKeyBundleDto)
      → (key_bundle_of_js js (key_bundle_into_dart d k) ≡ ok k)
        × (public_key_bundle_of_js js (public_key_bundle_into_dart d b) ≡ ok b)
        × (key_bundle_of_js js (public_key_bundle_into_dart d b) ≡ panic)
        × (public_key_bundle_of_js js (key_bundle_into_dart d k) ≡ panic)
  unfolding key_bundle_of_js public_key_bundle_of_js key_bundle_into_dart
      public_key_bundle_into_dart
  of_js-into_dart k b =
      (key_bundle_back k, public_key_bundle_back b, rw (laws.array _), rw (laws.array _))
