-- ===== src/Bridge/Sse.antt =====
-- frb_generated.rs: the traits `SseEncode` and `SseDecode`, which write values to a byte buffer and read them
-- back. A decoder takes the bytes that are left and gives the value and the bytes that it leaves; to read
-- beyond the end is the `unwrap` of an error. `NativeEndian` is the byte order of the target, an argument.
pub mod RoundTrip
pub mod Lengths
use merabriar.Prelude.{
  ℕ, zero, suc, ◌+◌, ◌*◌, ◌/◌, ◌%◌, ◌^◌, Bool, true, false, not, Option, none, some, List, [], ◌∷◌,
  ◌++◌, length, ◌==◌, if◌then◌else◌,
}
use merabriar.Rust.Text.{Bytes, Text}
use merabriar.Rust.Result.{Result, ok, panic, unwrap, ◌>>=◌}
use merabriar.Rust.Int.{ℤ, to_bits, from_bits, as_i32, rounds}
use merabriar.Rust.Utf8.{from_utf8}
use merabriar.Api.{KeyBundleDto, PublicKeyBundleDto}

-- The order of the bytes of a word.
pub data Endian : Type 0 where
  little big : Endian

abbrev pub split_word : Endian → ℕ → Bytes
split_word little w = w % 256 ∷ w / 2 ^ 8 % 256 ∷ w / 2 ^ 16 % 256 ∷ w / 2 ^ 24 ∷ []
split_word big w = w / 2 ^ 24 ∷ w / 2 ^ 16 % 256 ∷ w / 2 ^ 8 % 256 ∷ w % 256 ∷ []

abbrev pub join_word : Endian → ℕ → ℕ → ℕ → ℕ → ℕ
join_word little a b c d = a + 2 ^ 8 * b + 2 ^ 16 * c + 2 ^ 24 * d
join_word big a b c d = d + 2 ^ 8 * c + 2 ^ 16 * b + 2 ^ 24 * a

-- `sse_encode` of `u8`, `bool` and `()`
unfoldable pub encode_u8 : ℕ → Bytes
encode_u8 b = b ∷ []

unfoldable pub encode_bool : Bool → Bytes
encode_bool true = 1 ∷ []
encode_bool false = 0 ∷ []

unfoldable pub encode_unit : Unit {0} → Bytes
encode_unit _ = []

module _ (endian : Endian) where
  -- `sse_encode` of `i32`
  unfoldable pub encode_i32 : ℤ → Bytes
  encode_i32 n = split_word endian (to_bits n)

  -- the loop over the items, and `sse_encode` of `Vec<u8>`, `String` and `Option<Vec<u8>>`
  unfoldable pub encode_items : Bytes → Bytes
  unfolding encode_u8
  encode_items [] = []
  encode_items (item ∷ items) = encode_u8 item ++ encode_items items

  unfoldable pub encode_vec : Bytes → Bytes
  unfolding encode_i32 encode_items
  encode_vec v = encode_i32 (as_i32 (length v)) ++ encode_items v

  unfoldable pub encode_string : Text → Bytes
  unfolding encode_vec
  encode_string s = encode_vec s

  unfoldable pub encode_option : Option Bytes → Bytes
  unfolding encode_bool encode_vec
  encode_option none = encode_bool false
  encode_option (some v) = encode_bool true ++ encode_vec v

  -- `sse_encode` of the two transfer records
  unfoldable pub encode_key_bundle_dto : KeyBundleDto → Bytes
  unfolding encode_vec
  encode_key_bundle_dto k =
      encode_vec k.identity_public_key ++ (encode_vec k.signed_prekey ++ encode_vec k.signature)

  unfoldable pub encode_public_key_bundle_dto : PublicKeyBundleDto → Bytes
  unfolding encode_vec encode_option
  encode_public_key_bundle_dto k =
      encode_vec k.identity_public_key
      ++ (encode_vec k.signed_prekey ++ (encode_vec k.signature ++ encode_option k.one_time_prekey))

abbrev pub Decoder : Type 0 → Type 0
Decoder A = Bytes → Result (A × Bytes)

-- `sse_decode` of `u8`, `bool` and `()`
unfoldable pub decode_u8 : Decoder ℕ
decode_u8 [] = panic
decode_u8 (b ∷ rest) = ok (b, rest)

unfoldable pub decode_bool : Decoder Bool
unfolding decode_u8
decode_bool bytes = do (b, rest) ← decode_u8 bytes; ok (not (b == 0), rest)

unfoldable pub decode_unit : Decoder (Unit {0})
decode_unit bytes = ok (tt, bytes)

-- the loop `for idx_ in 0..len_` of `Vec<u8>`
unfoldable pub decode_items : ℕ → Decoder Bytes
unfolding decode_u8
decode_items zero bytes = ok ([], bytes)
decode_items (suc n) bytes = do
  (item, rest) ← decode_u8 bytes
  (items, left) ← decode_items n rest
  ok (item ∷ items, left)

module _ (endian : Endian) where
  -- `sse_decode` of `i32`
  unfoldable pub decode_i32 : Decoder ℤ
  decode_i32 (a ∷ b ∷ c ∷ d ∷ rest) = ok (from_bits (join_word endian a b c d), rest)
  decode_i32 _ = panic

  -- `sse_decode` of `Vec<u8>`, `Option<Vec<u8>>` and the two transfer records
  unfoldable pub decode_vec : Decoder Bytes
  unfolding decode_i32 decode_items
  decode_vec bytes = do (n, rest) ← decode_i32 bytes; decode_items (rounds n) rest

  unfoldable pub decode_option : Decoder (Option Bytes)
  unfolding decode_bool decode_vec
  decode_option bytes = do
    (present, rest) ← decode_bool bytes
    if present then (decode_vec rest >>= λ r. ok (some r.0, r.1)) else ok (none, rest)

  unfoldable pub decode_key_bundle_dto : Decoder KeyBundleDto
  unfolding decode_vec
  decode_key_bundle_dto bytes = do
    (identity, rest) ← decode_vec bytes
    (prekey, rest') ← decode_vec rest
    (signature, left) ← decode_vec rest'
    ok (
      record { identity_public_key = identity; signed_prekey = prekey; signature = signature },
      left,
    )

  unfoldable pub decode_public_key_bundle_dto : Decoder PublicKeyBundleDto
  unfolding decode_vec decode_option
  decode_public_key_bundle_dto bytes = do
    (identity, rest) ← decode_vec bytes
    (prekey, rest') ← decode_vec rest
    (signature, rest'') ← decode_vec rest'
    (one_time, left) ← decode_option rest''
    ok (
      record {
        identity_public_key = identity;
        signed_prekey = prekey;
        signature = signature;
        one_time_prekey = one_time;
      },
      left,
    )

  -- `sse_decode` of `String`; the error's text is a parameter
  unfoldable pub decode_string : (Bytes → Text) → Decoder Text
  unfolding decode_vec
  decode_string utf8_error bytes = do
    (inner, rest) ← decode_vec bytes
    s ← unwrap (from_utf8 utf8_error inner)
    ok (s, rest)
