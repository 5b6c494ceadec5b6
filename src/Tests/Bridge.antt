-- ===== src/Tests/Bridge.antt =====
-- Byte buffers, C arguments and values of Dart, on the memory and the values of ToyBridge.
use merabriar.Prelude.{ℕ, ◌≡◌, ◌≢◌, refl, true, some, [], ◌∷◌, ◌++◌, length, take, drop, arith}
use merabriar.Rust.Text.{Bytes, Text, text}
use merabriar.Rust.Result.{ok, panic}
use merabriar.Rust.Int.{pos}
use merabriar.Rust.Utf8.{is_utf8}
use merabriar.Crypto.Session.Derivation.{after_send, after_recv}
use merabriar.Crypto.State.{Crypto}
use merabriar.Crypto.Encryption.Success.{with_session, wire}
use merabriar.Engine.{Core}
use merabriar.Storage
use merabriar.Sync
use merabriar.Api.{KeyBundleDto, PublicKeyBundleDto}
use merabriar.Bridge.Sse.{
  little, big, encode_vec, encode_string, encode_key_bundle_dto, encode_public_key_bundle_dto,
  decode_vec, decode_string, decode_key_bundle_dto, decode_public_key_bundle_dto,
}
use merabriar.Bridge.Sse.RoundTrip.{sse_decode-sse_encode}
use merabriar.Bridge.Sse.Lengths.{seen, decode_vec-encode_vec-seen}
use merabriar.Bridge.Dart.{
  key_bundle_into_dart, public_key_bundle_into_dart, key_bundle_of_js, public_key_bundle_of_js,
}
use merabriar.Bridge.Dart.Web.{of_js-into_dart}
use merabriar.Bridge.Io
use merabriar.Bridge.Web
use merabriar.Bridge.Calls.{SameCall, native_agrees}
use merabriar.Bridge.Delivery.{Runs, io_seals_and_opens}
use merabriar.Tests.Toy.{platform, kdf_laws, aead_laws}
use merabriar.Tests.ToySqlite.{sqlite}
use merabriar.Tests.ToyTables.{Tables}
use merabriar.Tests.ToyBridge.{ffi, ffi_laws, dart, js, js_laws, success, of_bytes, of_text}
use merabriar.Tests.Peers.{
  alice, bob, secret, to_bob, link, hello, expected_now, again, again-IsSendable, hello-IsSendable,
  Holds-to_bob,
}

abbrev keys : KeyBundleDto
keys = record { identity_public_key = 1 ∷ 2 ∷ []; signed_prekey = 3 ∷ 4 ∷ []; signature = 5 ∷ [] }

abbrev published : PublicKeyBundleDto
published = record {
  identity_public_key = 1 ∷ 2 ∷ [];
  signed_prekey = 3 ∷ 4 ∷ [];
  signature = 5 ∷ [];
  one_time_prekey = some (6 ∷ 7 ∷ []);
}

abbrev explain : Bytes → Text
explain _ = text "FromUtf8Error"

bob-is_utf8 : is_utf8 bob ≡ true
unfolding is_utf8
bob-is_utf8 = refl

alice-is_utf8 : is_utf8 alice ≡ true
unfolding is_utf8
alice-is_utf8 = refl

sse_decode-sse_encode_example :
    (decode_string little explain (encode_string little bob ++ 9 ∷ []) ≡ ok (bob, 9 ∷ []))
    × (decode_key_bundle_dto little (encode_key_bundle_dto little keys ++ 9 ∷ [])
        ≡ ok (keys, 9 ∷ []))
    × (decode_public_key_bundle_dto little (encode_public_key_bundle_dto little published ++ 9 ∷ [])
        ≡ ok (published, 9 ∷ []))
sse_decode-sse_encode_example =
    sse_decode-sse_encode little explain bob keys published (9 ∷ []) bob-is_utf8 (omega arith)
      (omega arith, omega arith, omega arith) (omega arith, omega arith, omega arith, omega arith)

decode_vec-encode_vec-seen_example :
    decode_vec big (encode_vec big bob ++ 9 ∷ [])
    ≡ ok (take (seen (length bob)) bob, drop (seen (length bob)) bob ++ 9 ∷ [])
decode_vec-encode_vec-seen_example = decode_vec-encode_vec-seen big bob (9 ∷ [])

abbrev received : Bytes
received = 2 ∷ 0 ∷ 0 ∷ 0 ∷ 8 ∷ 9 ∷ 7 ∷ []

of_js-into_dart_example :
    (key_bundle_of_js js (key_bundle_into_dart dart keys) ≡ ok keys)
    × (public_key_bundle_of_js js (public_key_bundle_into_dart dart published) ≡ ok published)
    × (key_bundle_of_js js (public_key_bundle_into_dart dart published) ≡ panic)
    × (public_key_bundle_of_js js (key_bundle_into_dart dart keys) ≡ panic)
of_js-into_dart_example = of_js-into_dart js_laws keys published

abbrev engine : Crypto → Core Tables
engine c = record { crypto = c; queue = Sync.empty; db = Storage.empty }

two_there : ◌≢◌ {A = ℕ} 2 0
two_there e = absurd (omega arith)

native_agrees_example :
    SameCall {Connection = Tables} ffi_laws
      ((1, bob) ∷ (2, secret) ∷ [])
      []
      (Io.decrypt_message ffi dart (platform true) (pos 4) 1 2)
      (Web.decrypt_message dart (platform true) (pos 4) bob secret)
    × SameCall {Connection = Tables} ffi_laws
        ((1, bob) ∷ (2, alice) ∷ [])
        []
        (Io.encrypt_message ffi dart (platform true) hello.nonce (pos 4) 1 2)
        (Web.encrypt_message dart (platform true) hello.nonce (pos 4) bob alice)
    × SameCall ffi_laws
        ((1, bob) ∷ (2, alice) ∷ [])
        []
        (Io.init_core ffi dart sqlite (pos 4) 1 2)
        (Web.init_core dart sqlite (pos 4) bob alice)
    × SameCall {Connection = Tables} ffi_laws
        ((1, bob) ∷ [])
        []
        (Io.has_session ffi dart (pos 4) 1)
        (Web.has_session dart (pos 4) bob)
native_agrees_example =
    native_agrees ffi_laws dart (platform true) sqlite ((1, bob) ∷ (2, secret) ∷ [])
      ((1, bob) ∷ (2, alice) ∷ []) ((1, bob) ∷ []) (pos 4) 1 2 bob alice secret hello.nonce []
      bob-is_utf8 alice-is_utf8 refl refl refl

abbrev sealed : Bytes
sealed = wire (kdf_laws true) (aead_laws true) to_bob hello.nonce hello.plaintext

io_seals_and_opens_example :
    Runs ffi_laws
      (Io.encrypt_message ffi dart (platform true) hello.nonce (pos 4) 1 2)
      ((1, bob) ∷ (2, hello.plaintext) ∷ [])
      []
      (engine link.sender)
      (engine (with_session bob (after_send (kdf_laws true) to_bob) link.sender))
      (success (of_bytes sealed))
    × Runs ffi_laws
        (Io.decrypt_message ffi dart (platform true) (pos 4) 1 2)
        ((1, bob) ∷ (2, expected_now again) ∷ [])
        []
        (engine link.sender)
        (engine (with_session bob (after_recv (kdf_laws true) to_bob) link.sender))
        (success (of_text again.plaintext))
io_seals_and_opens_example =
    io_seals_and_opens ffi_laws dart (kdf_laws true) (aead_laws true)
      ((1, bob) ∷ (2, hello.plaintext) ∷ []) ((1, bob) ∷ (2, expected_now again) ∷ []) (pos 4) 1 2 1
      2 bob hello again to_bob (engine link.sender) [] bob-is_utf8 Holds-to_bob (omega arith)
      (omega arith) hello-IsSendable again-IsSendable refl refl
